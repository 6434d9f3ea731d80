-- ===== src/Database/Kept.antt =====
-- What the file and the log keep of a database's store.
use mathlib.Core.Option
use adaptive_query_accelerat.Common.{
  ℕ, ◌+◌, ◌^◌, ◌≤◌, ◌<◌, ◌≡◌, refl, sym, ◌∙◌, ap, subst, Option, none, some, List, [], ◌∷◌, ◌++◌,
  All, All-append, length, length-append, ite, if_pos, arith,
}
use adaptive_query_accelerat.MappedFile.{ok}
use adaptive_query_accelerat.Page.{RecordId}
use adaptive_query_accelerat.PageCache.Interface.{Policies}
use adaptive_query_accelerat.Wal
use adaptive_query_accelerat.Wal.{WalRecord}
use adaptive_query_accelerat.Wal.Round.{Fits}
use adaptive_query_accelerat.Wal.Replay.{encode_all, encode_all-append, appended}
use adaptive_query_accelerat.StorageWriter.{StorageWriter}
use adaptive_query_accelerat.StorageWriter.Written.{written, Sound}
use adaptive_query_accelerat.StorageReader.{Record}
use adaptive_query_accelerat.StorageReader.Pages.{records_in}
use adaptive_query_accelerat.Index.{bytes_discrete}
use adaptive_query_accelerat.Index.Rebuild.{latest, first_of}
use adaptive_query_accelerat.Database.{Database, put}
use adaptive_query_accelerat.Database.Fresh.{Store, update, update_other, IsFresh}
use adaptive_query_accelerat.Database.Put.{put-Stores}
use adaptive_query_accelerat.Database.Start.{store_in}
use adaptive_query_accelerat.Database.Recover.{replayed, FitsPage}
use adaptive_query_accelerat.Common.{append-nil}
use adaptive_query_accelerat.Page.{RawPage}
use adaptive_query_accelerat.StorageWriter
use adaptive_query_accelerat.StorageWriter.Insert.{IsFilled}
use adaptive_query_accelerat.StorageWriter.Written.{
  closed_page, closed-Readable, written-list, Sound-append,
}
use adaptive_query_accelerat.StorageReader.Slots.{Laid, used}
use adaptive_query_accelerat.StorageReader.Pages.{in_slots}

latest-append :
    (key : List ℕ) (vs : List (RecordId × Record)) (v : RecordId × Record)
    → latest key (vs ++ v ∷ []) ≡ ite (bytes_discrete v.1.key key) (some v) (latest key vs)
unfolding latest
latest-append key [] v = refl
latest-append key (u ∷ vs) v =
    ap (λ o. first_of o (ite (bytes_discrete u.1.key key) (some u) none)) (latest-append key vs v)
    ∙ go (bytes_discrete v.1.key key)
  where
    go :
        (d : Dec (v.1.key ≡ key))
        → first_of (ite d (some v) (latest key vs)) (ite (bytes_discrete u.1.key key) (some u) none)
          ≡ ite d
              (some v)
              (first_of (latest key vs) (ite (bytes_discrete u.1.key key) (some u) none))
    go (yes p) = refl
    go (no p) = refl

abbrev value_of : Option (RecordId × Record) → Option (List ℕ)
value_of o = Option.map (λ v. v.1.value) o

value_of-ite :
    {key k : List ℕ} (d : Dec (key ≡ k)) (v : RecordId × Record) (o : Option (RecordId × Record))
    → value_of (ite d (some v) o) ≡ ite d (some v.1.value) (value_of o)
value_of-ite (yes p) v o = refl
value_of-ite (no p) v o = refl

replayed-append :
    (rs : List WalRecord) (r : WalRecord) (m : Store)
    → replayed (rs ++ r ∷ []) m ≡ update r.key r.value (replayed rs m)
replayed-append [] r m = refl
replayed-append (q ∷ rs) r m = replayed-append rs r (update q.key q.value m)

-- What a replay makes of a key depends on what the key had.
pub replayed-local :
    (rs : List WalRecord) (a b : Store) (key : List ℕ)
    → a key ≡ b key
    → replayed rs a key ≡ replayed rs b key
replayed-local [] a b key h = h
replayed-local (r ∷ rs) a b key h =
    replayed-local rs (update r.key r.value a) (update r.key r.value b) key
      (ap (ite (bytes_discrete r.key key) (some r.value)) h)

-- The file, once the current page is written, makes the store, and its pages are readable.
pub record IsWritten (w : StorageWriter) (m : Store) : Type 0 where
  pub sound : Sound (written w)
  pub makes : (key : List ℕ) → store_in (written w) key ≡ m key

-- The log holds at most n records, which each have room in a page, and changes nothing in the
-- store.
pub record IsLogged (log : List ℕ) (m : Store) (n : ℕ) : Type 0 where
  pub records : List WalRecord
  pub count : length records ≤ n
  pub encoded : log ≡ encode_all records
  pub fits : All Fits records
  pub fit : All FitsPage records
  pub replays : (key : List ℕ) → replayed records m key ≡ m key

pub record IsKept {policies : Policies} (db : Database policies) (m : Store) (n : ℕ) : Type 0 where
  pub fresh : IsFresh db m
  pub file : IsWritten db.writer m
  pub log : IsLogged db.wal.log m n

append-IsWritten :
    (w w' : StorageWriter) (m : Store) (key value : List ℕ) (rid : RecordId)
    → IsWritten w m
    → (Sound (written w) → Sound (written w'))
    → records_in (written w')
      ≡ records_in (written w) ++ (rid, record { key = key; value = value }) ∷ []
    → IsWritten w' (update key value m)
append-IsWritten w w' m key value rid f sound listed = record {
  sound = sound f.sound;
  makes = λ k.
      ap (λ l. value_of (latest k l)) listed
      ∙ ap value_of
          (latest-append k (records_in (written w)) (rid, record { key = key; value = value }))
      ∙ value_of-ite (bytes_discrete key k) (rid, record { key = key; value = value })
          (latest k (records_in (written w)))
      ∙ ap (ite (bytes_discrete key k) (some value)) (f.makes k);
}

append-IsLogged :
    (log : List ℕ) (lsn : ℕ) (m : Store) (key value : List ℕ) (n : ℕ)
    → IsLogged log m n
    → length key + length value ≤ 4021
    → IsLogged
        (Wal.append (record { log = log; current_lsn = lsn }) key value).1.log
        (update key value m)
        (n + 1)
unfolding Wal.append
append-IsLogged log lsn m key value n l fit =
    let r = appended lsn key value in
    record {
      records = l.records ++ r ∷ [];
      count = omega (arith, l.count, length-append l.records (r ∷ []));
      encoded = ap (λ x. x ++ Wal.encode r) l.encoded ∙ encode_all-append l.records r;
      fits =
          All-append Fits l.records (r ∷ []) l.fits
            (record { lsn = omega arith; key = omega arith; value = omega arith }, tt);
      fit = All-append FitsPage l.records (r ∷ []) l.fit (fit, tt);
      replays = λ k.
          ap (λ s. s k) (replayed-append l.records r (update key value m))
          ∙ same k (bytes_discrete key k);
    }
  where
    same :
        (k : List ℕ) (d : Dec (key ≡ k))
        → update key value (replayed l.records (update key value m)) k ≡ update key value m k
    same k (yes p) = if_pos (bytes_discrete key k) p _ _ ∙ sym (if_pos (bytes_discrete key k) p _ _)
    same k (no p) =
        update_other key value k (replayed l.records (update key value m)) p
        ∙ replayed-local l.records (update key value m) m k (update_other key value k m p)
        ∙ l.replays k
        ∙ sym (update_other key value k m p)

-- A `put` of a record that has room in a page is kept.
pub put-IsKept :
    {policies : Policies} (key value : List ℕ) (db : Database policies) (m : Store) (n : ℕ)
    → IsKept db m n
    → length key + length value ≤ 4021
    → length db.writer.file + 1 < 2 ^ 32
    → (db' : Database policies) × (put key value db ≡ ok tt db')
      × IsKept db' (update key value m) (n + 1)
      × (length db'.writer.file ≤ length db.writer.file + 1)
      × (db'.engine ≡ db.engine)
put-IsKept key value db m n kept fits few =
    let s = put-Stores key value db m kept.fresh fits few in
    (
      s.after,
      s.returned,
      record {
        fresh = s.fresh;
        file =
            append-IsWritten db.writer s.after.writer m key value s.rid kept.file s.sound s.listed;
        log =
            subst (λ w. IsLogged w.log (update key value m) (n + 1)) (sym s.same.0)
              (append-IsLogged db.wal.log db.wal.current_lsn m key value n kept.log fits);
      },
      s.grown,
      s.same.2,
    )

init-IsFilled : (pages : List RawPage) → IsFilled (StorageWriter.init pages) []
unfolding StorageWriter.init Laid used
init-IsFilled pages = record { room = omega arith; laid = tt; counted = refl; free = refl }

-- A writer starts with what the pages hold.
pub init-IsWritten :
    (pages : List RawPage) → Sound pages → IsWritten (StorageWriter.init pages) (store_in pages)
unfolding StorageWriter.init in_slots
init-IsWritten pages sound = record {
  sound =
      Sound-append pages (closed_page (StorageWriter.init pages)) sound
        (closed-Readable (init-IsFilled pages));
  makes = λ key.
      ap (λ vs. value_of (latest key vs))
        (written-list (init-IsFilled pages) ∙ append-nil (records_in pages));
}

pub no_log-IsLogged : (m : Store) → IsLogged [] m 0
unfolding encode_all
no_log-IsLogged m = record {
  records = [];
  count = omega arith;
  encoded = refl;
  fits = tt;
  fit = tt;
  replays = λ key. refl;
}

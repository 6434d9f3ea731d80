-- ===== src/Database/TooLarge.antt =====
-- A record that has no room in a page: the call of `put`, and the log that it leaves.
use adaptive_query_accelerat.Common.{
  ℕ, ◌+◌, ◌^◌, ◌<◌, ◌≡◌, refl, ◌∙◌, ap, some, Option, List, [], ◌∷◌, ◌++◌, All, length, get_elem?,
  arith,
}
use adaptive_query_accelerat.MappedFile.{Result, ok, thrown, undefined, ◌>>=◌, record_too_large}
use adaptive_query_accelerat.Page.{RawPage}
use adaptive_query_accelerat.Observer.{AccessObserver}
use adaptive_query_accelerat.WorkloadHint.{WorkloadHint}
use adaptive_query_accelerat.PageCache.Interface.{Policies}
use adaptive_query_accelerat.Wal
use adaptive_query_accelerat.Wal.{WalRecord}
use adaptive_query_accelerat.Wal.Round.{Fits}
use adaptive_query_accelerat.Wal.Replay.{encode_all, appended, append-replay}
use adaptive_query_accelerat.StorageWriter
use adaptive_query_accelerat.StorageWriter.Append as Writer
use adaptive_query_accelerat.StorageReader.Listing.{Readable}
use adaptive_query_accelerat.Database.{
  Database, put, store, stored, store_all, recover, open_database,
}
use adaptive_query_accelerat.Database.Fresh.{Store, IsFresh}
use adaptive_query_accelerat.Database.Start.{store_in}
use adaptive_query_accelerat.Database.Recover.{logged, FitsPage, store_all-Replays}
use adaptive_query_accelerat.Database.Open.{opened, opened-IsFresh}

module _ {policies : Policies} where
  -- A call that throws because the record is too large, and leaves the rest as it was.
  pub record Refuses (db : Database policies) (m : Store)
      (r : Result (Database policies) (Unit {0})) : Type 0 where
    pub after : Database policies
    pub threw : r ≡ thrown record_too_large after
    pub fresh : IsFresh after m
    pub same_wal : after.wal ≡ db.wal

  store-Refuses :
      (key value : List ℕ) (db : Database policies) (m : Store)
      → IsFresh db m
      → 4021 < length key + length value
      → length key + length value < 2 ^ 62
      → length db.writer.file + 1 < 2 ^ 32
      → Refuses db m (store key value db)
  unfolding store
  store-Refuses key value db m fresh large small few =
      elim (Writer.append-Appends fresh.writer (record { key = key; value = value }) small few) [
        | Writer.appended rid w fits e v reads k grown named longer grows listed ↦
            absurd (omega arith)
        | Writer.too_large w large e v k longer grows listed ↦ record {
          after = record db { writer = w };
          threw = ap (stored key value db) e;
          fresh = record {
            served = fresh.served;
            writer = v;
            behind = omega (arith, fresh.behind);
            cache_valid = fresh.cache_valid;
            cached = fresh.cached;
          };
          same_wal = refl;
        }
      ]

  -- A `put` of more than 4021 and fewer than 2^62 bytes of key and value together, on a database
  -- that holds what a store holds and whose writer has fewer than 2^32 - 1 pages in its file: it
  -- throws, and the database holds what it held, but the log is what its append leaves, which came
  -- before.
  pub put-Refuses :
      (key value : List ℕ) (db : Database policies) (m : Store)
      → IsFresh db m
      → 4021 < length key + length value
      → length key + length value < 2 ^ 62
      → length db.writer.file + 1 < 2 ^ 32
      → Refuses (record db { wal = (Wal.append db.wal key value).1 }) m (put key value db)
  unfolding put
  put-Refuses key value db m fresh large small few =
      store-Refuses key value (record db { wal = (Wal.append db.wal key value).1 }) m
        (record {
          served = fresh.served;
          writer = fresh.writer;
          behind = fresh.behind;
          cache_valid = fresh.cache_valid;
          cached = fresh.cached;
        })
        large small few

  store_all-append :
      (rs qs : List WalRecord) (db : Database policies)
      → store_all (rs ++ qs) db ≡ store_all rs db >>= λ (x, db'). store_all qs db'
  unfolding store_all
  store_all-append [] qs db = refl
  store_all-append (q ∷ rs) qs db = go (λ d. store_all-append rs qs d) (store q.key q.value db)
    where
      go :
          ((d : Database policies)
            → store_all (rs ++ qs) d ≡ store_all rs d >>= λ (x, db'). store_all qs db')
          → (r : Result (Database policies) (Unit {0}))
          → (r >>= λ (x, d). store_all (rs ++ qs) d)
            ≡ (r >>= λ (x, d). store_all rs d) >>= λ (x, d). store_all qs d
      go ih (ok x d) = ih d
      go ih (thrown x d) = refl
      go ih undefined = refl

  store_all-thrown :
      (rs : List WalRecord) (r : WalRecord) (db after db' : Database policies)
      → store_all rs db ≡ ok tt after
      → store r.key r.value after ≡ thrown record_too_large db'
      → store_all (rs ++ r ∷ []) db ≡ thrown record_too_large db'
  store_all-thrown rs r db after db' h e =
      store_all-append rs (r ∷ []) db
      ∙ ap (λ x. x >>= λ (y, d). store_all (r ∷ []) d) h
      ∙ unfold store_all in ap (λ x. x >>= λ (y, d). ok tt d) e

  module _ (pages : List RawPage) (cache_size_pages record_cache_size : ℕ)
      (observer : Option AccessObserver) (hint : WorkloadHint) where
    -- A log to which records were appended that each have room in a page and fit the fields of
    -- the format, and then one, as `put` appends it, of a key and a value below 2^16 bytes each and
    -- over 4021 together: on a file of fewer than 2^20 readable pages, with fewer than 2^31 pages
    -- and records before it together, and with caches of at least one page and one record,
    -- the constructor of the database throws.
    pub open-poisoned :
        (rs : List WalRecord) (current : ℕ) (key value : List ℕ)
        → All Fits rs
        → All FitsPage rs
        → length key < 2 ^ 16
        → length value < 2 ^ 16
        → 4021 < length key + length value
        → length pages < 2 ^ 20
        → length pages + length rs < 2 ^ 31
        → 0 < cache_size_pages
        → 0 < record_cache_size
        → ((q : ℕ) (p : RawPage) → get_elem? pages q ≡ some p → Readable p)
        → (db : Database policies) × (open_database pages
              (Wal.append (record { log = encode_all rs; current_lsn = current }) key value).1.log
              cache_size_pages
              record_cache_size
              observer
              hint
            ≡ thrown record_too_large db)
    unfolding open_database
    open-poisoned rs current key value fits fit k v large few short frames room readable =
        let log =
          (Wal.append (record { log = encode_all rs; current_lsn = current }) key value).1.log in
        let last = appended current key value in
        let visits : logged log ≡ rs ++ last ∷ [] =
          ap (λ r. r.0) (append-replay rs current 0 key value fits k v).1 in
        let start : Database policies =
          opened pages log cache_size_pages record_cache_size observer hint in
        let s =
          store_all-Replays rs start (store_in pages)
            (opened-IsFresh pages log cache_size_pages record_cache_size observer hint few frames
              room readable)
            fit (unfold StorageWriter.init in omega arith) in
        let at_start : length start.writer.file ≡ length pages =
          unfold StorageWriter.init in refl in
        let refusal =
          store-Refuses key value s.after _ s.fresh large (omega arith) (omega (arith, s.grown)) in
        (
          refusal.after,
          ap (λ rs. store_all rs start >>= λ (x, db). recover db) visits
              ∙ ap (λ r. r >>= λ (x, db). recover db)
                  (store_all-thrown rs last start s.after refusal.after s.returned refusal.threw),
        )

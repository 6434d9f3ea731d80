-- ===== src/Database/Reopen.antt =====
-- A database that is closed and opened again.
use mathlib.Core.Option
use adaptive_query_accelerat.Common.{
  ℕ, ◌+◌, ◌^◌, ◌≤◌, ◌<◌, ◌≡◌, refl, sym, ◌∙◌, ap, subst, Option, Bool-cases, inl, inr, List, [],
  ◌∷◌, All, length, length-append, arith, ltb, ◌==◌, ◌||◌,
}
use adaptive_query_accelerat.MappedFile.{ok}
use adaptive_query_accelerat.Observer.{AccessObserver}
use adaptive_query_accelerat.WorkloadHint.{WorkloadHint}
use adaptive_query_accelerat.PageCache.Interface.{Policies}
use adaptive_query_accelerat.Wal.Replay.{replay-encode_all}
use adaptive_query_accelerat.StorageWriter.{StorageWriter, flush, write_page_to_disk}
use adaptive_query_accelerat.StorageWriter.Written.{IsValid, closed_page}
use adaptive_query_accelerat.StorageWriter.History.{flush-records, flush-Sound, length-flush}
use adaptive_query_accelerat.Index.Rebuild.{latest}
use adaptive_query_accelerat.Database.{Database, get, close, open_database}
use adaptive_query_accelerat.Database.Fresh.{Store, update, IsFresh}
use adaptive_query_accelerat.Database.Get.{get-Gets}
use adaptive_query_accelerat.Database.Exact.{Found, get-Found}
use adaptive_query_accelerat.Database.Start.{store_in}
use adaptive_query_accelerat.Database.Recover.{logged, replayed, FitsPage}
use adaptive_query_accelerat.Database.Open.{open-Found}
use adaptive_query_accelerat.Database.Session.{Request, put_of, get_of, store_after, FitAll, run}
use adaptive_query_accelerat.Database.Kept.{IsWritten, IsLogged, IsKept, replayed-local, put-IsKept}

-- What `flush` leaves has a page.
flush-some : (w : StorageWriter) → IsValid w → 0 < length (flush w).file
unfolding flush write_page_to_disk
flush-some w v = elim (Bool-cases (ltb 0 w.current_slot_count || w.current_page_id == 0)) [
  | inl writes ↦ rw writes (omega (arith, length-append w.file (closed_page w ∷ [])))
  | inr skips ↦ rw skips (ground (arith, v.placed))
]

logged-encode_all :
    (log : List ℕ) (m : Store) (n : ℕ) (l : IsLogged log m n) → logged log ≡ l.records
logged-encode_all log m n l =
    ap logged l.encoded ∙ ap (λ r. r.0) (replay-encode_all l.records 0 l.fits)

module _ {policies : Policies} where
  -- Close a database whose store is kept by its file and its log, and open what it leaves, with
  -- fewer than 2^20 - 1 pages written, at most 2^31 records in the log, and caches of at least
  -- one page and one record: the constructor returns, and the `get` of every key returns what the
  -- store has.
  pub reopen-get :
      (db : Database policies) (m : Store) (n cache_size_pages record_cache_size : ℕ)
      (observer : Option AccessObserver) (hint : WorkloadHint)
      → IsKept db m n
      → n ≤ 2 ^ 31
      → length db.writer.file + 1 < 2 ^ 20
      → 0 < cache_size_pages
      → 0 < record_cache_size
      → (db' : Database policies) × (open_database
            (close db).0
            (close db).1
            cache_size_pages
            record_cache_size
            observer
            hint
          ≡ ok tt db')
        × IsFresh db' m
        × ((key : List ℕ) → (db'' : Database policies) × (get key db' ≡ ok (m key) db''))
  unfolding close
  reopen-get db m n cache_size_pages record_cache_size observer hint kept many few frames room =
      let pages = (flush db.writer).file in
      let log = db.wal.log in
      let its : logged log ≡ kept.log.records = logged-encode_all log m n kept.log in
      let makes : (key : List ℕ) → store_in pages key ≡ m key = λ key.
        ap (λ vs. Option.map (λ v. v.1.value) (latest key vs))
          (flush-records db.writer kept.fresh.writer)
        ∙ kept.file.makes key in
      let again : (key : List ℕ) → replayed (logged log) (store_in pages) key ≡ m key = λ key.
        ap (λ rs. replayed rs (store_in pages) key) its
        ∙ replayed-local kept.log.records (store_in pages) m key (makes key)
        ∙ kept.log.replays key in
      let whole : replayed (logged log) (store_in pages) ≡ m = λ i key. again key i in
      let (db', returned, fresh, found) =
        open-Found pages log cache_size_pages record_cache_size observer hint
          (omega (arith, length-flush db.writer)) frames room
          (flush-Sound db.writer kept.file.sound) (subst (All FitsPage) (sym its) kept.log.fit)
          (omega (arith, length-flush db.writer, ap length its, kept.log.count))
          (flush-some db.writer kept.fresh.writer) (λ key. again key ∙ sym (makes key)) in
      let fresh' : IsFresh db' m = subst (IsFresh db') whole fresh in
      (
        db',
        returned,
        fresh',
        λ key.
            get-Found key db' m fresh'
              (subst (λ s. Found db'.engine db'.index s key) whole (found key)),
      )

  -- A session of `put`s and `get`s on a kept database.
  run-IsKept :
      (rs : List Request) (db : Database policies) (m : Store) (n : ℕ)
      → IsKept db m n
      → FitAll rs
      → length db.writer.file + length rs < 2 ^ 32
      → (given : List (Option (List ℕ))) × (db' : Database policies) × (run rs db ≡ ok given db')
        × IsKept db' (store_after rs m) (n + length rs)
        × (length db'.writer.file ≤ length db.writer.file + length rs)
  unfolding run
  run-IsKept [] db m n kept fit few =
      ([], db, refl, subst (IsKept db m) (omega arith) kept, omega arith)
  run-IsKept (put_of key value ∷ rs) db m n kept fit few =
      let (db', returned, kept', grown, same) =
        put-IsKept key value db m n kept fit.0 (omega arith) in
      let (given, after, rest, done, long) =
        run-IsKept rs db' (update key value m) (n + 1) kept' fit.1 (omega arith) in
      (
        given,
        after,
        rw (returned, rest) refl,
        subst (IsKept after (store_after rs (update key value m))) (omega arith) done,
        omega arith,
      )
  run-IsKept (get_of key ∷ rs) db m n kept fit few =
      let g = get-Gets key db m kept.fresh in
      let wide = ap (λ w. length w.file) g.same_writer in
      let kept' : IsKept g.after m (n + 1) = record {
        fresh = g.fresh;
        file = subst (λ w. IsWritten w m) (sym g.same_writer) kept.file;
        log = record {
          records = kept.log.records;
          count = omega (arith, kept.log.count);
          encoded = ap (λ w. w.log) g.same_wal ∙ kept.log.encoded;
          fits = kept.log.fits;
          fit = kept.log.fit;
          replays = kept.log.replays;
        };
      } in
      let (given, after, rest, done, long) =
        run-IsKept rs g.after m (n + 1) kept' fit (omega arith) in
      (
        g.result ∷ given,
        after,
        rw (g.returned, rest) refl,
        subst (IsKept after (store_after rs m)) (omega arith) done,
        omega arith,
      )

  -- Any sequence of `put`s, of records that have room in a page, and `get`s, on a database whose
  -- store is kept by its file and its log, with file and session below 2^20 - 1 pages together and
  -- log and session below 2^31 records together: it runs to its end; and once the database
  -- is then closed and opened again, with caches of at least one page and one record, the `get` of
  -- every key returns exactly what a store would have after the session.
  pub run-reopen :
      (rs : List Request) (db : Database policies) (m : Store)
      (n cache_size_pages record_cache_size : ℕ) (observer : Option AccessObserver)
      (hint : WorkloadHint)
      → IsKept db m n
      → FitAll rs
      → n + length rs ≤ 2 ^ 31
      → length db.writer.file + length rs + 1 < 2 ^ 20
      → 0 < cache_size_pages
      → 0 < record_cache_size
      → (given : List (Option (List ℕ))) × (db' : Database policies) × (again : Database policies)
        × (run rs db ≡ ok given db')
        × (open_database
              (close db').0
              (close db').1
              cache_size_pages
              record_cache_size
              observer
              hint
            ≡ ok tt again)
        × ((key : List ℕ)
            → (db'' : Database policies) × (get key again ≡ ok (store_after rs m key) db''))
  run-reopen rs db m n cache_size_pages record_cache_size observer hint kept fit many few frames
        room =
      let (given, db', returned, kept', long) = run-IsKept rs db m n kept fit (omega arith) in
      let (again, opened, fresh, gets) =
        reopen-get db' (store_after rs m) (n + length rs) cache_size_pages record_cache_size
          observer hint kept' many (omega arith) frames room in
      (given, db', again, returned, opened, gets)

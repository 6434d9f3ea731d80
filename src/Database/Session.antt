-- ===== src/Database/Session.antt =====
-- Sequences of calls against a store, and scans.
use adaptive_query_accelerat.Common.{
  ℕ, ◌+◌, ◌^◌, ◌≤◌, ◌<◌, ◌≡◌, ◌⊎◌, refl, ap, Option, none, List, [], ◌∷◌, length, arith,
}
use adaptive_query_accelerat.MappedFile.{Result, ok, ◌>>=◌}
use adaptive_query_accelerat.WorkloadHint
use adaptive_query_accelerat.WorkloadHint.{point_lookup}
use adaptive_query_accelerat.PageCache.Interface.{Policies}
use adaptive_query_accelerat.PageCache.Progress.{length-Alike}
use adaptive_query_accelerat.StorageReader.Scan.{scan-file_records}
use adaptive_query_accelerat.Index.Rebuild.{records_of}
use adaptive_query_accelerat.Database.{Database, put, get, scan, with_hint}
use adaptive_query_accelerat.Database.Fresh.{Store, update, IsFresh, IsServed-Alike}
use adaptive_query_accelerat.Database.Put.{put-Stores}
use adaptive_query_accelerat.Database.Get.{get-Gets}

pub data Request : Type 0 where
  put_of : List ℕ → List ℕ → Request
  get_of : List ℕ → Request

-- What a store answers to the `get`s.
unfoldable pub answers : List Request → Store → List (Option (List ℕ))
answers [] m = []
answers (put_of key value ∷ rs) m = answers rs (update key value m)
answers (get_of key ∷ rs) m = m key ∷ answers rs m

abbrev pub store_after : List Request → Store → Store
store_after [] m = m
store_after (put_of key value ∷ rs) m = store_after rs (update key value m)
store_after (get_of key ∷ rs) m = store_after rs m

-- Each answer is the store's, or nothing.
abbrev pub NotStale : List (Option (List ℕ)) → List (Option (List ℕ)) → Type 0
NotStale [] [] = Unit
NotStale [] (b ∷ bs) = ⊥
NotStale (a ∷ given) [] = ⊥
NotStale (a ∷ given) (b ∷ bs) = ((a ≡ none) ⊎ (a ≡ b)) × NotStale given bs

-- Every record that is put has room in a page.
abbrev pub FitAll : List Request → Type 0
FitAll [] = Unit
FitAll (put_of key value ∷ rs) = (length key + length value ≤ 4021) × FitAll rs
FitAll (get_of key ∷ rs) = FitAll rs

module _ {policies : Policies} where
  -- The calls, in order, with what the `get`s return; it stops at one that throws.
  unfoldable pub run :
      List Request → Database policies → Result (Database policies) (List (Option (List ℕ)))
  run [] db = ok [] db
  run (put_of key value ∷ rs) db = put key value db >>= λ (x, db'). run rs db'
  run (get_of key ∷ rs) db =
      get key db >>= λ (a, db'). run rs db' >>= λ (given, db''). ok (a ∷ given) db''

  -- On a database that holds what a store would hold, any sequence of `put`s, of records that have
  -- room in a page, and of `get`s, with a file that stays below 2^32 pages, runs to its end. Each
  -- `get` returns the value that its key last got, or nothing, and never an older one; and
  -- the database then holds what the store would hold.
  pub run-NotStale :
      (rs : List Request) (db : Database policies) (m : Store)
      → IsFresh db m
      → FitAll rs
      → length db.writer.file + length rs < 2 ^ 32
      → (given : List (Option (List ℕ))) × (db' : Database policies) × (run rs db ≡ ok given db')
        × NotStale given (answers rs m)
        × IsFresh db' (store_after rs m)
  unfolding run answers
  run-NotStale [] db m fresh fit few = ([], db, refl, tt, fresh)
  run-NotStale (put_of key value ∷ rs) db m fresh fit few =
      let s = put-Stores key value db m fresh fit.0 (omega arith) in
      let (given, db', returned, right, fresh') =
        run-NotStale rs s.after (update key value m) s.fresh fit.1 (omega (arith, s.grown)) in
      (given, db', rw (s.returned, returned) refl, right, fresh')
  run-NotStale (get_of key ∷ rs) db m fresh fit few =
      let g = get-Gets key db m fresh in
      let (given, db', returned, right, fresh') =
        run-NotStale rs g.after m g.fresh fit
          (omega (arith, ap (λ w. length w.file) g.same_writer)) in
      (g.result ∷ given, db', rw (g.returned, returned) refl, (g.not_stale, right), fresh')

  -- On a database that holds what a store would hold, a scan returns the records that the engine's
  -- pages hold, in order, and leaves a database that holds what the store would hold.
  pub scan-records_of :
      (db : Database policies) (m : Store)
      → IsFresh db m
      → (db' : Database policies) × (scan db ≡ ok (records_of db.engine) db') × IsFresh db' m
  unfolding scan
  scan-records_of db m fresh =
      let (e', returned, alike, ready) =
        scan-file_records db.engine fresh.served.ready fresh.served.readable in
      let long =
        length-Alike db.engine.cache e'.cache fresh.served.ready.valid alike.valid
          alike.transparent in
      (
        with_hint point_lookup (record (with_hint WorkloadHint.scan db) { engine = e' }),
        rw returned refl,
        record {
          served = IsServed-Alike db.engine e' db.index m fresh.served alike ready;
          writer = fresh.writer;
          behind = omega (arith, long, fresh.behind);
          cache_valid = fresh.cache_valid;
          cached = fresh.cached;
        },
      )

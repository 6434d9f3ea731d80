-- ===== src/Tests/Databases.antt =====
-- The properties of the database at concrete inputs.
use adaptive_query_accelerat.Common.{
  ℕ, ◌≡◌, Option, none, some, List, [], ◌∷◌, arith, replicate, length-replicate,
}
use adaptive_query_accelerat.WorkloadHint.{point_lookup}
use adaptive_query_accelerat.MappedFile.{ok}
use adaptive_query_accelerat.Wal
use adaptive_query_accelerat.StorageWriter
use adaptive_query_accelerat.StorageWriter.{StorageWriter}
use adaptive_query_accelerat.Index.Rebuild.{records_of}
use adaptive_query_accelerat.Database
use adaptive_query_accelerat.Database.{Database, put, get, open_database}
use adaptive_query_accelerat.Database.Fresh.{IsFresh}
use adaptive_query_accelerat.Database.Get.{put-get}
use adaptive_query_accelerat.Database.Session.{
  Request, put_of, get_of, answers, store_after, NotStale, run, run-NotStale, scan-records_of,
}
use adaptive_query_accelerat.Database.Start.{store_in}
use adaptive_query_accelerat.Database.Open.{opened, opened-IsFresh}
use adaptive_query_accelerat.Database.Kept.{IsKept, init-IsWritten, no_log-IsLogged}
use adaptive_query_accelerat.Database.Reopen.{run-reopen}
use adaptive_query_accelerat.Database.TooLarge.{Refuses, put-Refuses}
use adaptive_query_accelerat.Tests.Storage.{policies}

-- A new database, on an empty file and an empty log.
abbrev empty_database : Database policies
empty_database = opened [] [] 1 1 none point_lookup

empty_database-IsFresh : IsFresh empty_database (store_in [])
empty_database-IsFresh =
    opened-IsFresh [] [] 1 1 none point_lookup (omega arith) (omega arith) (omega arith)
      (λ q p h. cc)

abbrev requests : List Request
requests =
    put_of (1 ∷ []) (7 ∷ []) ∷ get_of (1 ∷ []) ∷ put_of (2 ∷ []) (8 ∷ []) ∷ get_of (1 ∷ []) ∷ []

run-NotStale_example :
    (given : List (Option (List ℕ))) × (db : Database policies) × (run requests empty_database
      ≡ ok given db)
    × NotStale given (answers requests (store_in []))
    × IsFresh db (store_after requests (store_in []))
unfolding StorageWriter.init
run-NotStale_example =
    run-NotStale requests empty_database (store_in []) empty_database-IsFresh
      (omega arith, (omega arith, tt)) (omega arith)

empty_database-IsKept : IsKept empty_database (store_in []) 0
unfolding Wal.replay Wal.replay_loop
empty_database-IsKept = record {
  fresh = empty_database-IsFresh;
  file = init-IsWritten [] (λ q p h. cc);
  log = no_log-IsLogged (store_in []);
}

run-reopen_example :
    (given : List (Option (List ℕ))) × (db : Database policies) × (again : Database policies) × (run
        requests empty_database
      ≡ ok given db)
    × (open_database (Database.close db).0 (Database.close db).1 1 1 none point_lookup
        ≡ ok tt again)
    × ((key : List ℕ)
        → (after : Database policies) × (get key again
            ≡ ok (store_after requests (store_in []) key) after))
unfolding StorageWriter.init
run-reopen_example =
    run-reopen requests empty_database (store_in []) 0 1 1 none point_lookup empty_database-IsKept
      (omega arith, (omega arith, tt)) (omega arith) (omega arith) (omega arith) (omega arith)

put-get_example :
    (db' : Database policies) × (db'' : Database policies) × (put (1 ∷ []) (7 ∷ []) empty_database
      ≡ ok tt db')
    × (get (1 ∷ []) db' ≡ ok (some (7 ∷ [])) db'')
unfolding StorageWriter.init
put-get_example =
    put-get (1 ∷ []) (7 ∷ []) empty_database (store_in []) empty_database-IsFresh (omega arith)
      (omega arith)

scan-records_of_example :
    (db : Database policies) × (Database.scan empty_database
      ≡ ok (records_of empty_database.engine) db)
    × IsFresh db (store_in [])
scan-records_of_example = scan-records_of empty_database (store_in []) empty_database-IsFresh

abbrev large : List ℕ
large = replicate 5000 0

put-Refuses_example :
    Refuses
      (record empty_database { wal = (Wal.append empty_database.wal (1 ∷ []) large).1 })
      (store_in [])
      (put (1 ∷ []) large empty_database)
unfolding StorageWriter.init
put-Refuses_example =
    put-Refuses (1 ∷ []) large empty_database (store_in []) empty_database-IsFresh
      (omega (arith, length-replicate {A = ℕ} 5000 0))
      (omega (arith, length-replicate {A = ℕ} 5000 0)) (omega arith)

-- ===== src/Database.antt =====
-- src/db/database.h and database.cpp: the database, which joins the write-ahead log, the writer,
-- the index, the record cache and the engine. The lock makes `put` one step; `get` and the count
-- share it, and `scan` takes no lock, and each is one step here because two calls are not taken to
-- run beside each other. `hint` is the workload hint of the calling thread. It is kept beside
-- the engine, whose page cache the constructor builds with no eviction policy, so that nothing in a
-- database reads it. The writer and the engine have opened the same file, but the engine sees the
-- pages that the file had when it was mapped. Times and output are left out.
pub mod Fresh
pub mod Put
pub mod Get
pub mod Session
pub mod Start
pub mod Recover
pub mod Open
pub mod TooLarge
pub mod Exact
pub mod Kept
pub mod Reopen
use adaptive_query_accelerat.Common.{
  ℕ, ◌+◌, ◌<◌, Bool, Option, none, some, List, [], ◌∷◌, if◌then◌else◌, ltb, length, ◌*◌, ite,
}
use adaptive_query_accelerat.MappedFile
use adaptive_query_accelerat.MappedFile.{Result, ok, thrown, undefined, ◌>>=◌}
use adaptive_query_accelerat.Page.{RawPage, RecordId, page_size}
use adaptive_query_accelerat.Observer.{AccessObserver}
use adaptive_query_accelerat.WorkloadHint
use adaptive_query_accelerat.WorkloadHint.{WorkloadHint, point_lookup, set_workload_hint}
use adaptive_query_accelerat.PageCache.Interface.{Policies}
use adaptive_query_accelerat.LruCache
use adaptive_query_accelerat.LruCache.{LruCache}
use adaptive_query_accelerat.Wal
use adaptive_query_accelerat.Wal.{WalManager, WalRecord}
use adaptive_query_accelerat.StorageWriter
use adaptive_query_accelerat.StorageWriter.{StorageWriter}
use adaptive_query_accelerat.StorageEngine
use adaptive_query_accelerat.StorageEngine.{StorageEngine, get_total_pages}
use adaptive_query_accelerat.StorageReader
use adaptive_query_accelerat.StorageReader.{Record}
use adaptive_query_accelerat.Index
use adaptive_query_accelerat.Index.{Index, bytes_discrete}

module _ (policies : Policies) where
  pub record Database : Type 0 where
    pub engine : StorageEngine policies
    pub writer : StorageWriter
    pub index : Index
    pub record_cache : LruCache (List ℕ) (List ℕ)
    pub wal : WalManager
    pub hint : WorkloadHint

module _ {policies : Policies} where
  -- `record_cache_.put(key, value)`; the cache has no eviction policy of its own.
  abbrev pub cached :
      Database policies
      → Option (LruCache (List ℕ) (List ℕ))
      → Result (Database policies) (Unit {0})
  cached db none = undefined
  cached db (some c) = ok tt (record db { record_cache = c })

  abbrev pub cache_put : List ℕ → List ℕ → Database policies → Result (Database policies) (Unit {0})
  cache_put key value db = cached db (LruCache.put bytes_discrete none db.record_cache key value)

  -- `writer_->append`, `index_.insert` and `record_cache_.put`, which `put` and the replay share.
  abbrev pub stored :
      List ℕ
      → List ℕ
      → Database policies
      → Result StorageWriter RecordId
      → Result (Database policies) (Unit {0})
  stored key value db (ok rid w) =
      cache_put key value (record db { writer = w; index = Index.insert key rid db.index })
  stored key value db (thrown x w) = thrown x (record db { writer = w })
  stored key value db undefined = undefined

  unfoldable pub store : List ℕ → List ℕ → Database policies → Result (Database policies) (Unit {0})
  store key value db = stored key value db (StorageWriter.append key value db.writer)

  unfoldable pub put : List ℕ → List ℕ → Database policies → Result (Database policies) (Unit {0})
  unfolding store
  put key value db = store key value (record db { wal = (Wal.append db.wal key value).1 })

  -- The record that the reader gave is the key's, or there is none.
  abbrev pub get_read :
      List ℕ → Option Record → Database policies → Result (Database policies) (Option (List ℕ))
  get_read key none db = ok none db
  get_read key (some r) db =
      ite (bytes_discrete r.key key)
        (cache_put key r.value db >>= λ (x, db'). ok (some r.value) db') (ok none db)

  abbrev pub in_database :
      {A : Type 0}
      → Database policies
      → Result (StorageEngine policies) A
      → Result (Database policies) A
  in_database db (ok a e) = ok a (record db { engine = e })
  in_database db (thrown x e) = thrown x (record db { engine = e })
  in_database db undefined = undefined

  abbrev pub get_record :
      List ℕ → Database policies → Option RecordId → Result (Database policies) (Option (List ℕ))
  get_record key db none = ok none db
  get_record key db (some rid) =
      in_database db (StorageReader.read_record rid db.engine) >>= λ (o, db'). get_read key o db'

  -- The branches of `get`, on what the record cache gives.
  abbrev pub get_cached :
      List ℕ
      → Database policies
      → Option (LruCache (List ℕ) (List ℕ) × Option (List ℕ))
      → Result (Database policies) (Option (List ℕ))
  get_cached key db none = undefined
  get_cached key db (some (c, some value)) = ok (some value) (record db { record_cache = c })
  get_cached key db (some (c, none)) =
      get_record key (record db { record_cache = c }) (Index.lookup key db.index)

  unfoldable pub get : List ℕ → Database policies → Result (Database policies) (Option (List ℕ))
  get key db = get_cached key db (LruCache.get bytes_discrete db.record_cache key)

  abbrev pub with_hint : WorkloadHint → Database policies → Database policies
  with_hint hint db = record db { hint = set_workload_hint hint db.hint }

  -- The calls of the callback are the list that is returned: a callback that throws, sets the hint
  -- or calls the database is left out. An exception of the reader skips the second call of
  -- `set_workload_hint`.
  unfoldable pub scan : Database policies → Result (Database policies) (List (RecordId × Record))
  scan db = do
    (visited, db') ← in_database (with_hint WorkloadHint.scan db) (StorageReader.scan db.engine)
    ok visited (with_hint point_lookup db')

  abbrev pub get_record_count : Database policies → ℕ
  get_record_count db = Index.size db.index

  abbrev pub with_index :
      Database policies
      → Result (StorageEngine policies) Index
      → Result (Database policies) (Unit {0})
  with_index db (ok i e) = ok tt (record db { engine = e; index = i })
  with_index db (thrown x e) = thrown x (record db { engine = e })
  with_index db undefined = undefined

  unfoldable pub recover : Database policies → Result (Database policies) (Unit {0})
  recover db =
      if ltb 0 (get_total_pages db.engine)
      then (do
        (x, db') ← with_index (with_hint WorkloadHint.scan db) (Index.rebuild db.engine)
        ok tt (with_hint point_lookup db'))
      else ok tt db

  -- The calls of the replay's visitor.
  unfoldable pub store_all :
      List WalRecord → Database policies → Result (Database policies) (Unit {0})
  unfolding store
  store_all [] db = ok tt db
  store_all (r ∷ rs) db = store r.key r.value db >>= λ (x, db'). store_all rs db'

  -- The constructor, on the whole pages of the file and the bytes of the log. If it throws, the
  -- result is the state of the members that are then destroyed.
  unfoldable pub open_database :
      List RawPage
      → List ℕ
      → ℕ
      → ℕ
      → Option AccessObserver
      → WorkloadHint
      → Result (Database policies) (Unit {0})
  unfolding store_all recover
  open_database pages log cache_size_pages record_cache_size observer hint = do
    (x, db) ← store_all (Wal.replay opened_log).0 (record {
      engine =
          StorageEngine.init policies (MappedFile.open_file pages (length pages * page_size))
            cache_size_pages observer;
      writer = StorageWriter.init pages;
      index = Index.empty;
      record_cache = LruCache.init record_cache_size;
      wal = (Wal.replay opened_log).2;
      hint = hint;
    })
    recover db
    where
      opened_log : WalManager
      opened_log = record { log = log; current_lsn = 0 }

  -- The file and the log that are left when the members are destroyed.
  unfoldable pub close : Database policies → List RawPage × List ℕ
  close db = ((StorageWriter.flush db.writer).file, db.wal.log)

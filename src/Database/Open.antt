-- ===== src/Database/Open.antt =====
-- What the constructor of the database makes of a file and a log.
use mathlib.Core.Option
use adaptive_query_accelerat.Common.{
  ℕ, ◌+◌, ◌*◌, ◌^◌, ◌<◌, ◌≡◌, sym, ◌∙◌, ap, Option, none, some, List, length, arith,
}
use adaptive_query_accelerat.MappedFile
use adaptive_query_accelerat.MappedFile.{MappedFile, Result, ok, thrown, ◌>>=◌, record_too_large}
use adaptive_query_accelerat.Page.{RawPage, page_size, reset}
use adaptive_query_accelerat.Observer.{AccessObserver}
use adaptive_query_accelerat.WorkloadHint.{WorkloadHint}
use adaptive_query_accelerat.PageCache.Interface.{Policies}
use adaptive_query_accelerat.PageCache.Init.{content-init}
use adaptive_query_accelerat.StorageReader.Listing.{Readable}
use adaptive_query_accelerat.Wal
use adaptive_query_accelerat.Wal.{WalRecord}
use adaptive_query_accelerat.LruCache
use adaptive_query_accelerat.LruCache.Valid as CacheValid
use adaptive_query_accelerat.StorageWriter
use adaptive_query_accelerat.StorageWriter.History as History
use adaptive_query_accelerat.Index.{lookup, bytes_discrete}
use adaptive_query_accelerat.Index
use adaptive_query_accelerat.Common.Maps.{find}
use adaptive_query_accelerat.Index.Rebuild.{latest, id_of, records_of}
use adaptive_query_accelerat.Database.Fresh.{IsFresh}
use adaptive_query_accelerat.Common.{All, get_elem?}
use adaptive_query_accelerat.Database.Start.{
  engine_of, init-Ready, pages-init, engine-records, records_in, store_in,
}
use adaptive_query_accelerat.Database.Exact.{Found}
use adaptive_query_accelerat.Database.Recover.{
  logged, replayed, FitsPage, Replays, store_all-Replays, Recovers, recover-Recovers,
}
use adaptive_query_accelerat.Database.{Database, open_database, recover}

module _ {policies : Policies} where
  -- The database before the replay of its log.
  abbrev pub opened :
      List RawPage → List ℕ → ℕ → ℕ → Option AccessObserver → WorkloadHint → Database policies
  opened pages log cache_size_pages record_cache_size observer hint = record {
    engine = engine_of policies pages cache_size_pages observer;
    writer = StorageWriter.init pages;
    index = Index.empty;
    record_cache = LruCache.init record_cache_size;
    wal = (Wal.replay (record { log = log; current_lsn = 0 })).2;
    hint = hint;
  }

  module _ (pages : List RawPage) (log : List ℕ) (cache_size_pages record_cache_size : ℕ)
      (observer : Option AccessObserver) (hint : WorkloadHint) where
    pub opened-IsFresh :
        length pages < 2 ^ 20
        → 0 < cache_size_pages
        → 0 < record_cache_size
        → ((q : ℕ) (p : RawPage) → get_elem? pages q ≡ some p → Readable p)
        → IsFresh
            (opened pages log cache_size_pages record_cache_size observer hint)
            (store_in pages)
    unfolding MappedFile.open_file LruCache.init StorageWriter.init lookup find
    opened-IsFresh few frames rcap readable = record {
      served = record {
        ready = init-Ready policies pages cache_size_pages observer few frames;
        readable = λ q p h. readable q p (
            sym (
              content-init policies reset (MappedFile.open_file pages (length pages * page_size))
                cache_size_pages observer none q)
            ∙ h);
        indexed = λ k rid r at_id held own. cc;
      };
      writer = History.init-IsValid pages (omega arith);
      behind = omega (arith, pages-init policies pages cache_size_pages observer);
      cache_valid = CacheValid.init-IsValid bytes_discrete record_cache_size rcap;
      cached = tt;
    }

    module _ (few : length pages < 2 ^ 20) (frames : 0 < cache_size_pages)
        (rcap : 0 < record_cache_size)
        (readable : (q : ℕ) (p : RawPage) → get_elem? pages q ≡ some p → Readable p)
        (fit : All FitsPage (logged log))
        (short : length pages + length (logged log) < 2 ^ 32) where
      open-Recovers :
          (s : Replays
            (logged log)
            (opened pages log cache_size_pages record_cache_size observer hint)
            (store_in pages))
          × (r : Recovers s.after (replayed (logged log) (store_in pages))) × (open_database pages
                log cache_size_pages record_cache_size observer hint
              ≡ ok tt r.after)
      unfolding open_database
      open-Recovers =
          let s =
            store_all-Replays (logged log)
              (opened pages log cache_size_pages record_cache_size observer hint) (store_in pages)
              (opened-IsFresh few frames rcap readable) fit (unfold StorageWriter.init in short) in
          let r = recover-Recovers s.after (replayed (logged log) (store_in pages)) s.fresh in
          (s, r, ap (λ x. x >>= λ (y, db). recover db) s.returned ∙ r.returned)

      same_records :
          (s : Replays
            (logged log)
            (opened pages log cache_size_pages record_cache_size observer hint)
            (store_in pages))
          → (length s.after.engine.cache.file.pages ≡ length pages)
            × (records_of s.after.engine ≡ records_in pages)
      same_records s = (
        ap (λ e. length e.cache.file.pages) s.same
            ∙ pages-init policies pages cache_size_pages observer,
        ap records_of s.same ∙ engine-records policies pages cache_size_pages observer few frames,
      )

      -- For a file of at least one page and fewer than 2^20, whose pages are readable, and a log
      -- whose records each have room in a page, with fewer than 2^32 pages and records of the log
      -- together, and with caches of at least one page and one record: the constructor returns, and
      -- the index gives for each key the id of the last record with that key in the pages of
      -- the file, or none.
      pub open-latest :
          0 < length pages
          → (db : Database policies) × (open_database pages log cache_size_pages record_cache_size
                observer hint
              ≡ ok tt db)
            × ((key : List ℕ) → lookup key db.index ≡ id_of (latest key (records_in pages)))
      open-latest some_pages =
          let (s, r, returned) = open-Recovers in
          let (count, records) = same_records s in
          (
            r.after,
            returned,
            λ key. r.found (omega arith) key ∙ ap (λ vs. id_of (latest key vs)) records,
          )

      -- With pages, the index then leads to the value of every key.
      pub open-Found :
          0 < length pages
          → ((key : List ℕ) → replayed (logged log) (store_in pages) key ≡ store_in pages key)
          → (db : Database policies) × (open_database pages log cache_size_pages record_cache_size
                observer hint
              ≡ ok tt db)
            × IsFresh db (replayed (logged log) (store_in pages))
            × ((key : List ℕ)
                → Found db.engine db.index (replayed (logged log) (store_in pages)) key)
      open-Found some_pages agree =
          let (s, r, returned) = open-Recovers in
          let (count, records) = same_records s in
          let same : (key : List ℕ)
              → replayed (logged log) (store_in pages) key
                ≡ Option.map (λ v. v.1.value) (latest key (records_of s.after.engine)) =
            λ key.
              agree key ∙ ap (λ vs. Option.map (λ v. v.1.value) (latest key vs)) (sym records) in
          (r.after, returned, r.fresh (λ h key. same key), λ key. r.exact (omega arith) same key)

-- ===== src/Database/Put.antt =====
-- `put` on a database that holds what a store would hold.
use adaptive_query_accelerat.Common.{
  ℕ, ◌+◌, ◌^◌, ◌≤◌, ◌<◌, ◌≡◌, refl, sym, ◌∙◌, ap, none, some, List, length, arith,
}
use adaptive_query_accelerat.MappedFile.{Result, ok}
use adaptive_query_accelerat.PageCache.Interface.{Policies}
use adaptive_query_accelerat.Wal
use adaptive_query_accelerat.LruCache.Methods.{entries, entry_of}
use adaptive_query_accelerat.LruCache.Facts.{put-All}
use adaptive_query_accelerat.StorageWriter.Append as Writer
use adaptive_query_accelerat.Index
use adaptive_query_accelerat.Index.{Index, bytes_discrete, lookup}
use adaptive_query_accelerat.Database.{Database, store, stored, put, cached}
use adaptive_query_accelerat.Database.Fresh.{
  Store, update, update_self, update_other, Current, IsFresh, insert-IsServed,
}
use adaptive_query_accelerat.Page.{RecordId}
use adaptive_query_accelerat.Common.{[], ◌∷◌, ◌++◌}
use adaptive_query_accelerat.StorageReader.Pages.{records_in}
use adaptive_query_accelerat.StorageWriter.Written.{Sound, written-Sound}

module _ {policies : Policies} where
  -- A record that goes into the writer, the index and the record cache.
  pub record Stores (key value : List ℕ) (db : Database policies) (m : Store)
      (r : Result (Database policies) (Unit {0})) : Type 0 where
    pub after : Database policies
    pub returned : r ≡ ok tt after
    pub fresh : IsFresh after (update key value m)
    pub at_hand :
        entry_of bytes_discrete key (entries after.record_cache)
        ≡ some (record { key = key; value = value })
    pub grown : length after.writer.file ≤ length db.writer.file + 1
    pub rid : RecordId
    pub listed :
        records_in (Writer.written after.writer)
        ≡ records_in (Writer.written db.writer) ++ (rid, record { key = key; value = value }) ∷ []
    pub sound : Sound (Writer.written db.writer) → Sound (Writer.written after.writer)
    pub same : (after.wal ≡ db.wal) × (after.hint ≡ db.hint) × (after.engine ≡ db.engine)

  pub store-Stores :
      (key value : List ℕ) (db : Database policies) (m : Store)
      → IsFresh db m
      → length key + length value ≤ 4021
      → length db.writer.file + 1 < 2 ^ 32
      → Stores key value db m (store key value db)
  unfolding store
  store-Stores key value db m fresh fits few =
      elim (Writer.append-Appends fresh.writer (record { key = key; value = value }) (omega arith)
        few) [
          | Writer.too_large w large e v k longer grows listed ↦ absurd (omega arith)
          | Writer.appended rid w small e v reads k grown named longer grows listed ↦
              let (c, returned, valid, current, at_hand) =
                put-All bytes_discrete none (Current m) (Current (update key value m))
                  db.record_cache key value fresh.cache_valid fresh.cached
                  (λ x other h. update_other key value x.key m (λ s. other (sym s)) ∙ h)
                  (update_self key value m) in
              let with_record : Database policies = record db {
                writer = w;
                index = Index.insert key rid db.index;
              } in
              record {
                after = record with_record { record_cache = c };
                returned = ap (stored key value db) e ∙ ap (cached with_record) returned;
                fresh = record {
                  served =
                      insert-IsServed db.engine db.index m key value rid fresh.served
                        (omega (arith, fresh.behind));
                  writer = v;
                  behind = omega (arith, fresh.behind);
                  cache_valid = valid;
                  cached = current;
                };
                at_hand = at_hand;
                grown = grown;
                rid = rid;
                listed = listed;
                sound = written-Sound db.writer w v grows;
                same = (refl, refl, refl);
              }
        ]

  pub put-Stores :
      (key value : List ℕ) (db : Database policies) (m : Store)
      → IsFresh db m
      → length key + length value ≤ 4021
      → length db.writer.file + 1 < 2 ^ 32
      → Stores key value (record db { wal = (Wal.append db.wal key value).1 }) m (put key value db)
  unfolding put
  put-Stores key value db m fresh fits few =
      store-Stores key value (record db { wal = (Wal.append db.wal key value).1 }) m
        (record {
          served = fresh.served;
          writer = fresh.writer;
          behind = fresh.behind;
          cache_valid = fresh.cache_valid;
          cached = fresh.cached;
        })
        fits few

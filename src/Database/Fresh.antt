-- ===== src/Database/Fresh.antt =====
-- The database against a map from keys to values: what it may hold, so that no read is stale.
use adaptive_query_accelerat.Common.{
  ℕ, ◌≤◌, ◌≡◌, ◌≢◌, refl, sym, ◌∙◌, ap, Option, some, List, All, length, ite, if_pos, if_neg, arith,
}
use adaptive_query_accelerat.Common.Maps.{find-assign}
use adaptive_query_accelerat.Page.{RawPage, RecordId}
use adaptive_query_accelerat.PageCache.Interface.{Policies}
use adaptive_query_accelerat.PageCache.View.{content}
use adaptive_query_accelerat.PageCache.Progress.{Alike, content-none}
use adaptive_query_accelerat.LruCache.{CacheEntry}
use adaptive_query_accelerat.LruCache.Valid as CacheValid
use adaptive_query_accelerat.LruCache.Methods.{entries}
use adaptive_query_accelerat.StorageWriter.Append as Writer
use adaptive_query_accelerat.StorageEngine.{StorageEngine}
use adaptive_query_accelerat.StorageReader.{Record}
use adaptive_query_accelerat.StorageReader.Listing.{Readable}
use adaptive_query_accelerat.StorageReader.Scan.{Ready}
use adaptive_query_accelerat.StorageReader.Lookup.{Holds}
use adaptive_query_accelerat.Index
use adaptive_query_accelerat.Index.{Index, bytes_discrete, lookup}
use adaptive_query_accelerat.Database.{Database}

-- What a store of values would hold.
abbrev pub Store : Type 0
Store = List ℕ → Option (List ℕ)

abbrev pub update : List ℕ → List ℕ → Store → Store
update key value m = λ k. ite (bytes_discrete key k) (some value) (m k)

-- An entry of the record cache with the value that the store has.
abbrev pub Current : Store → CacheEntry (List ℕ) (List ℕ) → Type 0
Current m e = m e.key ≡ some e.value

pub update_self : (key value : List ℕ) (m : Store) → update key value m key ≡ some value
update_self key value m = if_pos (bytes_discrete key key) refl (some value) (m key)

pub update_other : (key value k : List ℕ) (m : Store) → key ≢ k → update key value m k ≡ m k
update_other key value k m h = if_neg (bytes_discrete key k) h (some value) (m k)

-- Every record that the index and the pages give for a key is the store's.
abbrev pub Indexed : {policies : Policies} → StorageEngine policies → Index → Store → Type 0
Indexed e i m =
    (k : List ℕ) (rid : RecordId) (r : Record)
    → lookup k i ≡ some rid
    → Holds (content e.cache) (rid, r)
    → r.key ≡ k
    → m k ≡ some r.value

module _ {policies : Policies} where
  abbrev pub AllReadable : StorageEngine policies → Type 0
  AllReadable e = (q : ℕ) (p : RawPage) → content e.cache q ≡ some p → Readable p

  -- What the engine's part of the database promises.
  pub record IsServed (e : StorageEngine policies) (i : Index) (m : Store) : Type 0 where
    pub ready : Ready e.cache
    pub readable : AllReadable e
    pub indexed : Indexed e i m

  pub record IsFresh (db : Database policies) (m : Store) : Type 0 where
    pub served : IsServed db.engine db.index m
    pub writer : Writer.IsValid db.writer
    pub behind : length db.engine.cache.file.pages ≤ length db.writer.file
    pub cache_valid : CacheValid.IsValid bytes_discrete db.record_cache
    pub cached : All (Current m) (entries db.record_cache)

  -- Reads leave the engine so.
  pub IsServed-Alike :
      (e e' : StorageEngine policies) (i : Index) (m : Store)
      → IsServed e i m
      → Alike e.cache e'.cache
      → Ready e'.cache
      → IsServed e' i m
  IsServed-Alike e e' i m s alike ready = record {
    ready = ready;
    readable = λ q p h. s.readable q p (sym (alike.transparent q) ∙ h);
    indexed = λ k rid r found (p, held, read).
        s.indexed k rid r found (p, sym (alike.transparent rid.page_id) ∙ held, read);
  }

  -- A key that is put goes to a page behind those that the engine sees.
  pub insert-IsServed :
      (e : StorageEngine policies) (i : Index) (m : Store) (key value : List ℕ) (rid : RecordId)
      → IsServed e i m
      → length e.cache.file.pages ≤ rid.page_id
      → IsServed e (Index.insert key rid i) (update key value m)
  unfolding Index.insert lookup
  insert-IsServed e i m key value rid s behind = record {
    ready = s.ready;
    readable = s.readable;
    indexed = λ k q r found (p, held, read) same. elim (bytes_discrete key k) [
      | no other ↦
          update_other key value k m other
          ∙ s.indexed k q r
              (sym (
                  find-assign bytes_discrete key k rid i.map
                  ∙ if_neg (bytes_discrete key k) other _ _)
                ∙ found)
              (p, held, read) same
      | yes own ↦
          let new : some rid ≡ some q =
            sym (find-assign bytes_discrete key k rid i.map ∙ if_pos (bytes_discrete key k) own _ _)
            ∙ found in
          let there : rid ≡ q = ground arith in
          let gone = content-none e.cache rid.page_id s.ready.valid behind in
          absurd (cc (ap (λ x. content e.cache x.page_id) there, held, gone))
    ];
  }

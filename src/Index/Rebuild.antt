-- ===== src/Index/Rebuild.antt =====
-- The rebuilt index leads to the latest record of each key, and the reader finds it there.
use mathlib.Core.Option
use adaptive_query_accelerat.Common.{
  ℕ, zero, suc, ◌≡◌, refl, ◌∙◌, subst, Option, none, some, List, [], ◌∷◌, All, All-append, ite,
  arith,
}
use adaptive_query_accelerat.Common.Maps.{find, find-assign}
use adaptive_query_accelerat.MappedFile.{ok}
use adaptive_query_accelerat.Page.{RawPage, RecordId}
use adaptive_query_accelerat.PageCache.Interface.{Policies}
use adaptive_query_accelerat.PageCache.View.{content}
use adaptive_query_accelerat.PageCache.Progress.{Alike}
use adaptive_query_accelerat.StorageEngine.{StorageEngine, get_total_pages}
use adaptive_query_accelerat.StorageReader.{Record, read_slot, slot_count}
use adaptive_query_accelerat.StorageReader.Lookup.{Holds}
use adaptive_query_accelerat.StorageReader.Listing.{
  Readable, slot_records, page_records, file_records, visit_slot,
}
use adaptive_query_accelerat.StorageReader.Scan.{Ready, scan-file_records}
use adaptive_query_accelerat.Index.{
  Index, bytes_discrete, insert, insert_all, lookup, empty, rebuild,
}

abbrev pub first_of : {A : Type 0} → Option A → Option A → Option A
first_of none o = o
first_of (some a) o = some a

first_of-none : {A : Type 0} (o : Option A) → first_of o none ≡ o
first_of-none none = refl
first_of-none (some a) = refl

-- The last record with the key.
unfoldable pub latest : List ℕ → List (RecordId × Record) → Option (RecordId × Record)
latest key [] = none
latest key (v ∷ vs) = first_of (latest key vs) (ite (bytes_discrete v.1.key key) (some v) none)

abbrev pub id_of : Option (RecordId × Record) → Option RecordId
id_of o = Option.map (λ v. v.0) o

insert_all-latest :
    (vs : List (RecordId × Record)) (i : Index) (key : List ℕ)
    → lookup key (insert_all vs i) ≡ first_of (id_of (latest key vs)) (lookup key i)
unfolding insert_all insert lookup latest
insert_all-latest [] i key = refl
insert_all-latest ((rid, r) ∷ vs) i key =
    insert_all-latest vs (insert r.key rid i) key
    ∙ later (latest key vs) (bytes_discrete r.key key) (lookup key i)
        (find-assign bytes_discrete r.key key rid i.map)
  where
    later :
        (o : Option (RecordId × Record)) (d : Dec (r.key ≡ key)) (other : Option RecordId)
        {found : Option RecordId}
        → found ≡ ite d (some rid) other
        → first_of (id_of o) found
          ≡ first_of (id_of (first_of o (ite d (some (rid, r)) none))) other
    later (some v) d other h = refl
    later none (yes p) other h = h
    later none (no p) other h = h

pub latest-All :
    (P : RecordId × Record → Type 0) (key : List ℕ) (vs : List (RecordId × Record))
    (v : RecordId × Record)
    → All P vs
    → latest key vs ≡ some v
    → P v × (v.1.key ≡ key)
unfolding latest
latest-All P key [] v h e = cc
latest-All P key (w ∷ vs) v h e =
    go (latest key vs) (λ u. latest-All P key vs u h.1) (bytes_discrete w.1.key key) e
  where
    go :
        (o : Option (RecordId × Record))
        → ((u : RecordId × Record) → o ≡ some u → P u × (u.1.key ≡ key))
        → (d : Dec (w.1.key ≡ key)) → first_of o (ite d (some w) none) ≡ some v
        → P v × (v.1.key ≡ key)
    go (some u) ih d e = ih v e
    go none ih (yes p) e =
        let same : w ≡ v = ground arith in subst (λ u. P u × (u.1.key ≡ key)) same (h.0, p)
    go none ih (no p) e = cc

slot_records-Holds :
    (pages : ℕ → Option RawPage) (p : RawPage) (pid rounds sid : ℕ)
    → pages pid ≡ some p
    → All (Holds pages) (slot_records p pid rounds sid)
unfolding slot_records
slot_records-Holds pages p pid zero sid h = tt
slot_records-Holds pages p pid (suc rounds) sid h =
    add (read_slot p sid) (slot_records p pid rounds (suc sid)) refl
      (slot_records-Holds pages p pid rounds (suc sid) h)
  where
    add :
        (o : Option (Option Record)) (vs : List (RecordId × Record))
        → read_slot p sid ≡ o
        → All (Holds pages) vs
        → All (Holds pages) (visit_slot (record { page_id = pid; slot_id = sid }) o vs)
    add none vs e rest = rest
    add (some none) vs e rest = rest
    add (some (some r)) vs e rest = ((p, h, e), rest)

page_records-Holds :
    (pages : ℕ → Option RawPage) (pid : ℕ) (o : Option RawPage)
    → pages pid ≡ o
    → All (Holds pages) (page_records pid o)
page_records-Holds pages pid none h = tt
page_records-Holds pages pid (some p) h = slot_records-Holds pages p pid (slot_count p) 0 h

pub file_records-Holds :
    (pages : ℕ → Option RawPage) (rounds pid : ℕ)
    → All (Holds pages) (file_records pages rounds pid)
unfolding file_records
file_records-Holds pages zero pid = tt
file_records-Holds pages (suc rounds) pid =
    All-append (Holds pages) (page_records pid (pages pid)) (file_records pages rounds (suc pid))
      (page_records-Holds pages pid (pages pid) refl) (file_records-Holds pages rounds (suc pid))

module _ {policies : Policies} where
  -- The records of the engine's pages, in the order of the scan.
  abbrev pub records_of : StorageEngine policies → List (RecordId × Record)
  records_of e = file_records (content e.cache) (get_total_pages e) 0

  -- Where the scan works, the rebuilding of the index returns, leaves the contents and the pins of
  -- the pages as they were, and the new index has, for every key, the id of the last record with
  -- that key in the pages, and none if there is none; and the slot of that id holds that record.
  pub rebuild-latest :
      (e : StorageEngine policies)
      → Ready e.cache
      → ((q : ℕ) (p : RawPage) → content e.cache q ≡ some p → Readable p)
      → (i : Index) × (e' : StorageEngine policies) × (rebuild e ≡ ok i e')
        × Alike e.cache e'.cache
        × Ready e'.cache
        × ((key : List ℕ) → lookup key i ≡ id_of (latest key (records_of e)))
        × ((key : List ℕ) (v : RecordId × Record)
            → latest key (records_of e) ≡ some v
            → Holds (content e.cache) v × (v.1.key ≡ key))
  unfolding rebuild lookup find
  rebuild-latest e ready readable =
      let (e', returned, alike, ready') = scan-file_records e ready readable in
      (
        insert_all (records_of e) empty,
        e',
        rw returned refl,
        alike,
        ready',
        λ key.
            insert_all-latest (records_of e) empty key
            ∙ first_of-none (id_of (latest key (records_of e))),
        λ key v h.
            latest-All (Holds (content e.cache)) key (records_of e) v
              (file_records-Holds (content e.cache) (get_total_pages e) 0) h,
      )

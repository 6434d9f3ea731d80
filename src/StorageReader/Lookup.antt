-- ===== src/StorageReader/Lookup.antt =====
-- One record read where nothing is pinned: the read returns.
use native.Mathlib.Decide.{dec_lt}
use adaptive_query_accelerat.Common.{ℕ, ◌≡◌, ◌∙◌, ap, Option, none, some, length, arith}
use adaptive_query_accelerat.MappedFile.{ok}
use adaptive_query_accelerat.Page.{RawPage, RecordId}
use adaptive_query_accelerat.PageCache.Handles.{destroy}
use adaptive_query_accelerat.PageCache.Interface.{Policies}
use adaptive_query_accelerat.PageCache.View.{content}
use adaptive_query_accelerat.PageCache.Progress.{
  Alike, Alike-refl, unpin-Alike, content-some, content-none, fetch-Returns,
}
use adaptive_query_accelerat.StorageEngine.{StorageEngine, release}
use adaptive_query_accelerat.StorageEngine.Fetch.{handle, with_cache}
use adaptive_query_accelerat.StorageReader.{Record, slot_count, read_slot, finish_read, read_record}
use adaptive_query_accelerat.StorageReader.Slots.{read_page, read_slot-absent}
use adaptive_query_accelerat.StorageReader.Read.{read_Fetched, read_absent}
use adaptive_query_accelerat.StorageReader.Listing.{Readable}
use adaptive_query_accelerat.StorageReader.Scan.{Ready, Alike-Ready}

-- A record that stands in a slot of the pages.
abbrev pub Holds : (ℕ → Option RawPage) → RecordId × Record → Type 0
Holds pages v =
    (p : RawPage) × (pages v.0.page_id ≡ some p) × (read_slot p v.0.slot_id ≡ some (some v.1))

-- Every slot id of a readable page reads something.
read_slot-Readable :
    (p : RawPage) (slot_id : ℕ) → Readable p → (o : Option Record) × (read_slot p slot_id ≡ some o)
read_slot-Readable p slot_id readable = elim (dec_lt slot_id (slot_count p)) [
  | yes h ↦ readable slot_id h
  | no h ↦ (none, read_slot-absent p slot_id (omega arith))
]

module _ {policies : Policies} where
  -- A read that returns what the page's content gives.
  pub record Looks (e : StorageEngine policies) (rid : RecordId) : Type 0 where
    pub result : Option Record
    pub after : StorageEngine policies
    pub returned : read_record rid e ≡ ok result after
    pub found : read_page (content e.cache rid.page_id) rid.slot_id ≡ some result
    pub alike : Alike e.cache after.cache
    pub ready : Ready after.cache

  pub read_record-Looks :
      (e : StorageEngine policies) (rid : RecordId)
      → Ready e.cache
      → ((q : ℕ) (p : RawPage) → content e.cache q ≡ some p → Readable p)
      → Looks e rid
  unfolding release destroy
  read_record-Looks e rid ready readable = elim (dec_lt rid.page_id (length e.cache.file.pages)) [
    | no h ↦ record {
      result = none;
      after = e;
      returned = read_absent e ready.valid rid (omega arith);
      found =
          ap (λ o. read_page o rid.slot_id)
            (content-none e.cache rid.page_id ready.valid (omega arith));
      alike = Alike-refl e.cache ready.valid;
      ready = ready;
    }
    | yes h ↦
        let (p, held) = content-some e.cache rid.page_id ready.valid h in
        let (o, found) = read_slot-Readable p rid.slot_id (readable rid.page_id p held) in
        let (frame, c', f) = fetch-Returns rid.page_id ready.valid ready.room h in
        let (alike, still) = unpin-Alike rid.page_id frame f in
        let after = release (handle rid.page_id frame) (with_cache e c') in
        record {
          result = o;
          after = after;
          returned =
              read_Fetched e ready.valid rid frame c' p h f held
              ∙ ap (finish_read (handle rid.page_id frame) (with_cache e c')) found;
          found = ap (λ o. read_page o rid.slot_id) held ∙ found;
          alike = alike;
          ready = Alike-Ready e.cache after.cache rid.page_id frame ready alike still;
        }
  ]

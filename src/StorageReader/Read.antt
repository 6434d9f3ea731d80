-- ===== src/StorageReader/Read.antt =====
-- `read_record` through the engine reads what the page's content says.
use native.Mathlib.Decide.{dec_lt}
use adaptive_query_accelerat.Common.{
  ℕ, ◌≤◌, ◌<◌, ◌≡◌, refl, sym, ◌∙◌, ap, Option, none, some, Option-cases, inl, inr, get_elem?,
  get_or, length, leb, true, false, arith,
}
use adaptive_query_accelerat.MappedFile.{ok, thrown, undefined, pool_full, ◌>>=◌}
use adaptive_query_accelerat.Page.{RawPage, RecordId}
use adaptive_query_accelerat.PageCache.{PageCache, count_miss}
use adaptive_query_accelerat.PageCache.Handles.{destroy}
use adaptive_query_accelerat.PageCache.Interface.{Policies}
use adaptive_query_accelerat.PageCache.Valid.{Cached, IsValid}
use adaptive_query_accelerat.PageCache.View.{content}
use adaptive_query_accelerat.PageCache.Fetch.{Fetched}
use adaptive_query_accelerat.PageCache.Progress.{Alike, unpin-Alike, content-Cached, content-some}
use adaptive_query_accelerat.StorageEngine.{StorageEngine, get_total_pages, fetch_page, release}
use adaptive_query_accelerat.StorageEngine.Fetch.{
  handle, with_cache, EngineFetches, outside, returns, refuses, fetch_page-EngineFetches,
  fetch_Fetched,
}
use adaptive_query_accelerat.StorageReader.{
  Record, read_slot, read_frame, read_through, finish_read, read_record,
}

module _ {policies : Policies} where
  -- The frame that a fetch returned holds the page's content.
  pub Fetched-page :
      {c : PageCache policies RawPage} (page_id frame : ℕ) (c' : PageCache policies RawPage)
      {p : RawPage}
      → Fetched c page_id frame c'
      → content c page_id ≡ some p
      → get_elem? c'.pool frame ≡ some p
  Fetched-page page_id frame c' f e =
      sym (content-Cached c' page_id frame f.cached) ∙ f.transparent page_id ∙ e

  -- What `read_record` does.
  pub data Reads (e : StorageEngine policies) (rid : RecordId) : Type 0 where
    no_page : length e.cache.file.pages ≤ rid.page_id → read_record rid e ≡ ok none e → Reads e rid
    reads :
        (p : RawPage) (o : Option Record) (e' : StorageEngine policies)
        → content e.cache rid.page_id ≡ some p
        → read_slot p rid.slot_id ≡ some o
        → read_record rid e ≡ ok o e'
        → Alike e.cache e'.cache
        → e'.pending ≡ e.pending
        → Reads e rid
    leaves_page :
        (p : RawPage)
        → content e.cache rid.page_id ≡ some p
        → read_slot p rid.slot_id ≡ none
        → read_record rid e ≡ undefined
        → Reads e rid
    refused :
        read_record rid e
          ≡ thrown pool_full (with_cache e (count_miss policies rid.page_id e.cache))
        → ((q f : ℕ) → Cached e.cache q f → 0 < get_or e.cache.pin_counts f 0)
        → Reads e rid

  module _ (e : StorageEngine policies) (v : IsValid e.cache) (rid : RecordId) where
    inside :
        rid.page_id < length e.cache.file.pages
        → read_record rid e ≡ fetch_page rid.page_id e >>= read_through rid.slot_id
    unfolding read_record
    inside h =
        let test : leb (get_total_pages e) rid.page_id ≡ false = ground (arith, v.file.counted) in
        rw test refl

    pub read_Fetched :
        (frame : ℕ) (c' : PageCache policies RawPage) (p : RawPage)
        → rid.page_id < length e.cache.file.pages
        → Fetched e.cache rid.page_id frame c'
        → content e.cache rid.page_id ≡ some p
        → read_record rid e
          ≡ finish_read (handle rid.page_id frame) (with_cache e c') (read_slot p rid.slot_id)
    read_Fetched frame c' p h f held =
        inside h
        ∙ ap (λ r. r >>= read_through rid.slot_id) (fetch_Fetched e v rid.page_id frame c' h f)
        ∙ ap
            (λ o.
              finish_read (handle rid.page_id frame) (with_cache e c') (read_frame o rid.slot_id))
            (Fetched-page rid.page_id frame c' f held)

    pub read_absent : length e.cache.file.pages ≤ rid.page_id → read_record rid e ≡ ok none e
    unfolding read_record
    read_absent h =
        let test : leb (get_total_pages e) rid.page_id ≡ true = ground (arith, v.file.counted) in
        rw test refl

    on_fetch : EngineFetches e rid.page_id → Reads e rid
    unfolding release destroy
    on_fetch (outside h threw) = no_page h (read_absent h)
    on_fetch (refuses threw busy) = elim (dec_lt rid.page_id (length e.cache.file.pages)) [
      | yes h ↦ refused (inside h ∙ ap (λ r. r >>= read_through rid.slot_id) threw) busy
      | no h ↦ no_page (omega arith) (read_absent (omega arith))
    ]
    on_fetch (returns frame c' returned f) = elim (dec_lt rid.page_id (length e.cache.file.pages)) [
      | no h ↦ no_page (omega arith) (read_absent (omega arith))
      | yes h ↦
          let (p, held) = content-some e.cache rid.page_id v h in
          let done = read_Fetched frame c' p h f held in
          let finish = finish_read (handle rid.page_id frame) (with_cache e c') in
          elim (Option-cases (read_slot p rid.slot_id)) [
            | inl none_there ↦ leaves_page p held none_there (done ∙ ap finish none_there)
            | inr (o, found) ↦
                reads p o (release (handle rid.page_id frame) (with_cache e c')) held found
                  (done ∙ ap finish found) (unpin-Alike rid.page_id frame f).0 refl
          ]
    ]

    -- On a valid cache, the read of a record whose page the file does not have gives none and
    -- changes nothing. Else it gives what the slot of the page's content gives, none included,
    -- and leaves the cache valid, with the contents and pins that it had; it leaves the page,
    -- which is undefined, only if the slot of that content does; and it throws only if each
    -- cached page is pinned.
    pub read_record-Reads : Reads e rid
    read_record-Reads = on_fetch (fetch_page-EngineFetches e v rid.page_id)

-- ===== src/StorageEngine/Fetch.antt =====
-- Bounds of a fetch, and prefetch threads.
use adaptive_query_accelerat.Common.{
  ℕ, ◌≤◌, ◌<◌, ◌≡◌, refl, ◌∙◌, ap, some, arith, leb, length, true, false, get_or, ℕ_discrete,
}
use native.Mathlib.Decide.{dec_lt}
use adaptive_query_accelerat.Common.Maps.{find}
use adaptive_query_accelerat.MappedFile.{ok, thrown, pool_full, out_of_bounds}
use adaptive_query_accelerat.Page.{RawPage}
use adaptive_query_accelerat.PageCache.{PageCache, count_miss, get_pin_count}
use adaptive_query_accelerat.PageCache.Handles
use adaptive_query_accelerat.PageCache.Handles.{PageHandle, destroy, handle_for}
use adaptive_query_accelerat.PageCache.Interface.{Policies}
use adaptive_query_accelerat.PageCache.Valid.{Cached, IsValid}
use adaptive_query_accelerat.PageCache.View.{content_at_same, pin_count_at_same}
use adaptive_query_accelerat.PageCache.Fetch.{
  Fetched, fetched, full, missed-IsValid, get_page_internal-Fetches,
}
use adaptive_query_accelerat.PageCache.Progress.{Alike, Alike-refl, unpin-Alike}
use adaptive_query_accelerat.StorageEngine.{
  StorageEngine, get_total_pages, in_engine, fetch_page, release, prefetch_thread, caught,
}

abbrev pub handle : ℕ → ℕ → PageHandle
handle page_id frame = record { page_id = page_id; frame = frame }

module _ {policies : Policies} where
  -- The engine with another state of its cache.
  abbrev pub with_cache :
      StorageEngine policies → PageCache policies RawPage → StorageEngine policies
  with_cache e c = record e { cache = c }

  -- A fetch through the engine.
  pub data EngineFetches (e : StorageEngine policies) (page_id : ℕ) : Type 0 where
    outside :
        length e.cache.file.pages ≤ page_id
        → fetch_page page_id e ≡ thrown out_of_bounds e
        → EngineFetches e page_id
    returns :
        (frame : ℕ) (c' : PageCache policies RawPage)
        → fetch_page page_id e ≡ ok (handle page_id frame) (with_cache e c')
        → Fetched e.cache page_id frame c'
        → EngineFetches e page_id
    refuses :
        fetch_page page_id e ≡ thrown pool_full (with_cache e (count_miss policies page_id e.cache))
        → ((q f : ℕ) → Cached e.cache q f → 0 < get_or e.cache.pin_counts f 0)
        → EngineFetches e page_id

  module _ (e : StorageEngine policies) (v : IsValid e.cache) (page_id : ℕ) where
    pub fetch_outside :
        length e.cache.file.pages ≤ page_id → fetch_page page_id e ≡ thrown out_of_bounds e
    unfolding fetch_page
    fetch_outside h =
        let outside : leb (get_total_pages e) page_id ≡ true = ground (arith, v.file.counted) in
        rw outside refl

    fetch_inside :
        page_id < length e.cache.file.pages
        → fetch_page page_id e ≡ in_engine e.pending (Handles.fetch_page policies page_id e.cache)
    unfolding fetch_page
    fetch_inside h =
        let inside : leb (get_total_pages e) page_id ≡ false = ground (arith, v.file.counted) in
        rw inside refl

    pub fetch_Fetched :
        (frame : ℕ) (c' : PageCache policies RawPage)
        → page_id < length e.cache.file.pages
        → Fetched e.cache page_id frame c'
        → fetch_page page_id e ≡ ok (handle page_id frame) (with_cache e c')
    unfolding Handles.fetch_page
    fetch_Fetched frame c' h f =
        fetch_inside h ∙ ap (λ r. in_engine e.pending (handle_for policies page_id r)) f.returned

    -- On a valid cache, a fetch of a page that the file does not have throws and changes nothing;
    -- a fetch of any other does in the cache what the cache's fetch does, and leaves the rest.
    pub fetch_page-EngineFetches : EngineFetches e page_id
    unfolding Handles.fetch_page
    fetch_page-EngineFetches = elim (dec_lt page_id (length e.cache.file.pages)) [
      | no h ↦ outside (omega arith) (fetch_outside (omega arith))
      | yes h ↦ elim (get_page_internal-Fetches v page_id h) [
        | fetched frame c' f ↦ returns frame c' (fetch_Fetched frame c' h f) f
        | full threw busy empty miss ↦
            refuses
              (fetch_inside h ∙ ap (λ r. in_engine e.pending (handle_for policies page_id r)) threw)
              busy
      ]
    ]

    -- On a valid cache, a prefetch thread always ends, and whatever page it was started for, it
    -- leaves the cache valid and every page with the content and the pins that it had.
    pub prefetch_thread-Alike :
        (e' : StorageEngine policies) × (prefetch_thread page_id e ≡ some e')
        × Alike e.cache e'.cache
        × (e'.pending ≡ e.pending)
    unfolding prefetch_thread destroy
    prefetch_thread-Alike = elim fetch_page-EngineFetches [
      | outside h threw ↦ (e, ap caught threw, Alike-refl e.cache v, refl)
      | returns frame c' returned f ↦ (
        release (handle page_id frame) (with_cache e c'),
        ap caught returned,
        (unpin-Alike page_id frame f).0,
        refl,
      )
      | refuses threw busy ↦ (
        with_cache e (count_miss policies page_id e.cache),
        ap caught threw,
        record {
          valid = missed-IsValid v page_id;
          transparent = λ q.
              content_at_same e.cache (count_miss policies page_id e.cache)
                (find ℕ_discrete q e.cache.page_map) q refl refl;
          pinned = λ q.
              unfold get_pin_count in
              pin_count_at_same e.cache (count_miss policies page_id e.cache)
                (find ℕ_discrete q e.cache.page_map) refl;
        },
        refl,
      )
    ]

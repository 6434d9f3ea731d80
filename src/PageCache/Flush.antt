-- ===== src/PageCache/Flush.antt =====
-- `flush_page`: a page's frame is written to the file, and stays in the cache.
use adaptive_query_accelerat.Common.{
  ℕ, ◌<◌, ◌≡◌, ◌≢◌, refl, sym, ◌∙◌, ap, subst, Option, none, some, get_elem?, set, length-set,
  get_elem?_total, get_elem?-set_self, get_elem?-set_ne, ℕ_discrete, arith, length,
}
use adaptive_query_accelerat.Common.Maps.{find}
use adaptive_query_accelerat.MappedFile.{ok}
use adaptive_query_accelerat.PageCache.{
  PageCache, flush_at, flush_from, flushed_to, flush_page, get_pin_count,
}
use adaptive_query_accelerat.PageCache.Interface.{Policies}
use adaptive_query_accelerat.PageCache.Valid.{Cached, IsValid}
use adaptive_query_accelerat.PageCache.Evict.{store_lem}
use adaptive_query_accelerat.PageCache.View.{content, content_at, pins, pin_count_at_same}

module _ {policies : Policies} {P : Type 0} where
  -- What a flush of a page leaves: the file has the page as the cache had it, and no other page of
  -- the file has changed; nor have the contents, the pins and the cached pages.
  pub record Flushed (c : PageCache policies P) (page_id : ℕ) : Type 0 where
    pub after : PageCache policies P
    pub returned : flush_page policies page_id c ≡ ok tt after
    pub valid : IsValid after
    pub written : get_elem? after.file.pages page_id ≡ content c page_id
    pub others : (q : ℕ) → page_id ≢ q → get_elem? after.file.pages q ≡ get_elem? c.file.pages q
    pub same_pages : after.page_map ≡ c.page_map
    pub transparent : (q : ℕ) → content after q ≡ content c q
    pub pinned : (q : ℕ) → pins after q ≡ pins c q

  module _ {c : PageCache policies P} (v : IsValid c) (page_id : ℕ) where
    abbrev stored : P → PageCache policies P
    stored page = record c { file = record c.file { pages = set c.file.pages page_id page } }

    stored-IsValid : (page : P) → IsValid (stored page)
    stored-IsValid page =
        let same : length (set c.file.pages page_id page) ≡ length c.file.pages =
          length-set c.file.pages page_id page in
        record {
          counts = v.counts;
          shape = v.shape;
          listed = v.listed;
          mapped = v.mapped;
          in_pool = v.in_pool;
          injective = v.injective;
          free_in = v.free_in;
          free_unused = v.free_unused;
          free_distinct = v.free_distinct;
          on_file = λ q f h. subst (λ n. q < n) (sym same) (v.on_file q f h);
          file = record {
            mapped = λ h. v.file.mapped (omega (arith, same));
            counted = v.file.counted ∙ sym same;
            below_4gb = omega (arith, same, v.file.below_4gb);
          };
        }

    stored-Flushed :
        (frame : ℕ) (page : P)
        → Cached c page_id frame
        → get_elem? c.pool frame ≡ some page
        → Flushed c page_id
    unfolding flush_page get_pin_count
    stored-Flushed frame page cached held =
        let stores = store_lem page_id page v.file (v.on_file page_id frame cached) in
        record {
          after = stored page;
          returned =
              ap (λ o. flush_at policies page_id o c) cached
              ∙ ap (flush_from policies page_id c) held
              ∙ ap (flushed_to policies c) stores;
          valid = stored-IsValid page;
          written =
              get_elem?-set_self c.file.pages page_id page (v.on_file page_id frame cached)
              ∙ sym (ap (λ o. content_at o c page_id) cached ∙ held);
          others = λ q p. get_elem?-set_ne c.file.pages page_id q page p;
          same_pages = refl;
          transparent = λ q. same q (find ℕ_discrete q c.page_map) refl;
          pinned = λ q. pin_count_at_same c (stored page) (find ℕ_discrete q c.page_map) refl;
        }
      where
        same :
            (q : ℕ) (o : Option ℕ)
            → find ℕ_discrete q c.page_map ≡ o
            → content (stored page) q ≡ content c q
        same q (some f) e =
            ap (λ o. content_at o (stored page) q) e ∙ sym (ap (λ o. content_at o c q) e)
        same q none e =
            ap (λ o. content_at o (stored page) q) e
            ∙ get_elem?-set_ne c.file.pages page_id q page (λ p.
              let here : find ℕ_discrete page_id c.page_map ≡ none =
                subst (λ x. find ℕ_discrete x c.page_map ≡ none) (sym p) e in
              cc)
            ∙ sym (ap (λ o. content_at o c q) e)

    -- On a valid cache a flush of a page returns, whether the page is cached or not: the file then
    -- has the page as the cache has it, and its other pages as it had them; the cache is valid, and
    -- has the cached pages, the content of every page and the pins that it had.
    pub flush_page-Flushed : Flushed c page_id
    flush_page-Flushed = on_frame (find ℕ_discrete page_id c.page_map) refl
      where
        on_frame : (o : Option ℕ) → find ℕ_discrete page_id c.page_map ≡ o → Flushed c page_id
        on_frame none e = record {
          after = c;
          returned = unfold flush_page in ap (λ o. flush_at policies page_id o c) e;
          valid = v;
          written = sym (ap (λ o. content_at o c page_id) e);
          others = λ q p. refl;
          same_pages = refl;
          transparent = λ q. refl;
          pinned = λ q. refl;
        }
        on_frame (some frame) e =
            let (page, held) = get_elem?_total c.pool frame (v.in_pool page_id frame e) in
            stored-Flushed frame page e held

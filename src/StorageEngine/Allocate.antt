-- ===== src/StorageEngine/Allocate.antt =====
-- `allocate_page`: one page more, with its header, and every other page as it was.
use adaptive_query_accelerat.Common.{
  ℕ, zero, suc, ◌+◌, ◌-◌, ◌^◌, ◌≤◌, ◌<◌, ◌≡◌, ◌≢◌, inl, inr, refl, sym, ◌∙◌, ap, subst, true,
  Option, none, some, Option-cases, List, [], ◌∷◌, ◌++◌, All-weaken, length, length-append,
  length-set, replicate, set, get_elem?, get_elem?-set_self, get_elem?-set_ne, ℕ_discrete, arith,
  u32,
}
use adaptive_query_accelerat.Common.Maps.{find}
use adaptive_query_accelerat.MappedFile
use adaptive_query_accelerat.MappedFile.{MappedFile, Result, ok, ◌>>=◌}
use adaptive_query_accelerat.MappedFile.Grow.{enough, grown, failed, grow_file-Grows}
use adaptive_query_accelerat.Page.{RawPage, cleared}
use adaptive_query_accelerat.PageCache.{PageCache, get_pin_count}
use adaptive_query_accelerat.PageCache.Handles
use adaptive_query_accelerat.PageCache.Handles.{PageHandle, handle_for}
use adaptive_query_accelerat.PageCache.Interface.{Policies}
use adaptive_query_accelerat.PageCache.Valid.{Cached, IsMapped, IsValid}
use adaptive_query_accelerat.PageCache.View.{content, content_at, pin_count_at_same}
use adaptive_query_accelerat.PageCache.Progress.{
  HasFrame, fetch-Returns, content-Cached, length-Alike,
}
use adaptive_query_accelerat.StorageEngine.{
  StorageEngine, get_total_pages, allocate_page, write_header,
}
use adaptive_query_accelerat.StorageEngine.Fetch.{handle, with_cache}

get_elem?-below :
    {A : Type 0} (xs ys : List A) (i : ℕ) → i < length xs → get_elem? (xs ++ ys) i ≡ get_elem? xs i
get_elem?-below [] ys i h = absurd (omega arith)
get_elem?-below (x ∷ xs) ys zero h = refl
get_elem?-below (x ∷ xs) ys (suc i) h = get_elem?-below xs ys i (omega arith)

get_elem?-end : {A : Type 0} (xs : List A) (y : A) → get_elem? (xs ++ y ∷ []) (length xs) ≡ some y
get_elem?-end [] y = refl
get_elem?-end (x ∷ xs) y = get_elem?-end xs y

module _ {policies : Policies} where
  -- The cache over a file that has got pages.
  abbrev with_file : PageCache policies RawPage → MappedFile RawPage → PageCache policies RawPage
  with_file c f = record c { file = f }

  with_file-IsValid :
      (c : PageCache policies RawPage) (f : MappedFile RawPage)
      → IsValid c
      → IsMapped f
      → length c.file.pages ≤ length f.pages
      → IsValid (with_file c f)
  with_file-IsValid c f v m longer = record {
    counts = v.counts;
    shape = v.shape;
    listed = v.listed;
    mapped = v.mapped;
    in_pool = v.in_pool;
    injective = v.injective;
    free_in = v.free_in;
    free_unused = v.free_unused;
    free_distinct = v.free_distinct;
    on_file = λ p frame h. (let inside = v.on_file p frame h in omega arith);
    file = m;
  }

  content-with_file :
      (c : PageCache policies RawPage) (f : MappedFile RawPage) (ps : List RawPage) (q : ℕ)
      → f.pages ≡ c.file.pages ++ ps
      → q < length c.file.pages
      → content (with_file c f) q ≡ content c q
  content-with_file c f ps q e h = go (find ℕ_discrete q c.page_map)
    where
      go : (o : Option ℕ) → content_at o (with_file c f) q ≡ content_at o c q
      go (some frame) = refl
      go none = ap (λ l. get_elem? l q) e ∙ get_elem?-below c.file.pages ps q h

  content-with_file_end :
      (c : PageCache policies RawPage) (f : MappedFile RawPage)
      → IsValid c
      → (n : ℕ) → f.pages ≡ c.file.pages ++ cleared ∷ []
      → length c.file.pages ≡ n
      → content (with_file c f) n ≡ some cleared
  content-with_file_end c f v n e at_end = elim (Option-cases (find ℕ_discrete n c.page_map)) [
    | inl miss ↦
        ap (λ o. content_at o (with_file c f) n) miss
        ∙ ap (λ l. get_elem? l n) e
        ∙ ap (get_elem? (c.file.pages ++ cleared ∷ [])) (sym at_end)
        ∙ get_elem?-end c.file.pages cleared
    | inr (frame, cached) ↦ absurd (let inside = v.on_file n frame cached in omega arith)
  ]

  with_file-HasFrame :
      (c : PageCache policies RawPage) (f : MappedFile RawPage)
      → HasFrame c
      → HasFrame (with_file c f)
  unfolding get_pin_count
  with_file-HasFrame c f (inl free) = inl free
  with_file-HasFrame c f (inr (q, frame, cached, idle)) = inr (
    q,
    frame,
    cached,
    pin_count_at_same c (with_file c f) (find ℕ_discrete q c.page_map) refl ∙ idle,
  )

  -- A page written through its handle, in its frame.
  abbrev pub with_page_in : {P : Type 0} → PageCache policies P → ℕ → P → PageCache policies P
  with_page_in c frame p = record c { pool = set c.pool frame p }

  pub with_page_in-IsValid :
      {P : Type 0} (c : PageCache policies P) (frame : ℕ) (p : P)
      → IsValid c
      → IsValid (with_page_in c frame p)
  with_page_in-IsValid c frame p v =
      let same = length-set c.pool frame p in
      record {
        counts = v.counts ∙ sym same;
        shape = v.shape;
        listed = v.listed;
        mapped = v.mapped;
        in_pool = λ q f h. subst (λ n. f < n) (sym same) (v.in_pool q f h);
        injective = v.injective;
        free_in =
            All-weaken (λ f. f < length c.pool) (λ f. f < length (set c.pool frame p))
              (λ f h. subst (λ n. f < n) (sym same) h) c.free_frames v.free_in;
        free_unused = v.free_unused;
        free_distinct = v.free_distinct;
        on_file = v.on_file;
        file = v.file;
      }

  content-with_page_in :
      (c : PageCache policies RawPage) (page_id frame : ℕ) (p : RawPage) (q : ℕ)
      → IsValid c
      → Cached c page_id frame
      → page_id ≢ q
      → content (with_page_in c frame p) q ≡ content c q
  content-with_page_in c page_id frame p q v cached other =
      elim (Option-cases (find ℕ_discrete q c.page_map)) [
        | inl miss ↦
            ap (λ o. content_at o (with_page_in c frame p) q) miss
            ∙ sym (ap (λ o. content_at o c q) miss)
        | inr (f, there) ↦
            ap (λ o. content_at o (with_page_in c frame p) q) there
            ∙ get_elem?-set_ne c.pool frame f p
                (λ e. other (v.injective page_id q frame cached (there ∙ ap some (sym e))))
            ∙ sym (ap (λ o. content_at o c q) there)
      ]

  -- An allocation that returns, with what it does to the pages.
  pub record Allocates (e : StorageEngine policies) : Type 0 where
    pub frame : ℕ
    pub after : StorageEngine policies
    pub returned : allocate_page true true e ≡ ok (handle (get_total_pages e) frame) after
    pub valid : IsValid after.cache
    pub cached : Cached after.cache (get_total_pages e) frame
    pub count : get_total_pages after ≡ get_total_pages e + 1
    pub fresh :
        content after.cache (get_total_pages e) ≡ some (write_header (get_total_pages e) cleared)
    pub others : (q : ℕ) → q < get_total_pages e → content after.cache q ≡ content e.cache q

  module _ (e : StorageEngine policies) (v : IsValid e.cache) (room : HasFrame e.cache) where
    grown-Allocates :
        (g : MappedFile RawPage)
        → get_total_pages e + 1 < 2 ^ 20
        → MappedFile.grow_file cleared true true (u32 (get_total_pages e + 1)) e.cache.file
          ≡ ok tt g
        → g.pages ≡ e.cache.file.pages ++ cleared ∷ []
        → IsMapped g
        → Allocates e
    unfolding allocate_page Handles.fetch_page
    grown-Allocates g few grew pages m =
        let n = get_total_pages e in
        let counted = v.file.counted in
        let long : length g.pages ≡ length e.cache.file.pages + 1 =
          ap length pages ∙ length-append e.cache.file.pages (cleared ∷ []) in
        let c = with_file e.cache g in
        let v' = with_file-IsValid e.cache g v m (omega arith) in
        let (frame, c', f) = fetch-Returns n v' (with_file-HasFrame e.cache g room) (omega arith) in
        let at_end : content c n ≡ some cleared =
          content-with_file_end e.cache g v n pages (sym counted) in
        let held : get_elem? c'.pool frame ≡ some cleared =
          sym (content-Cached c' n frame f.cached) ∙ f.transparent n ∙ at_end in
        let p = write_header n cleared in
        record {
          frame = frame;
          after = with_cache e (with_page_in c' frame p);
          returned = rw (grew, f.returned, held) refl;
          valid = with_page_in-IsValid c' frame p f.valid;
          cached = f.cached;
          count = f.valid.file.counted ∙ length-Alike c c' v' f.valid f.transparent ∙ omega arith;
          fresh =
              ap (λ o. content_at o (with_page_in c' frame p) n) f.cached
              ∙ get_elem?-set_self c'.pool frame p (f.valid.in_pool n frame f.cached);
          others = λ q h.
              content-with_page_in c' n frame p q f.valid f.cached (λ e. omega arith)
              ∙ f.transparent q
              ∙ content-with_file e.cache g (cleared ∷ []) q pages (omega arith);
        }

    -- On a valid cache of which a frame can be had, for a file of fewer than 2^20 - 1 pages, and if
    -- the system calls succeed: an allocation returns a handle to one page more, behind the others,
    -- whose content is an empty page with its id, the magic number and no next page; the cache is
    -- valid, the page is cached, and every other page has the content that it had.
    pub allocate_page-Allocates : get_total_pages e + 1 < 2 ^ 20 → Allocates e
    allocate_page-Allocates few =
        let n = get_total_pages e in
        let counted = v.file.counted in
        let one : u32 (n + 1) - length e.cache.file.pages ≡ 1 = omega arith in
        elim (grow_file-Grows cleared true true (u32 (n + 1)) e.cache.file v.file (omega arith)) [
          | enough has _ ↦ absurd (omega arith)
          | grown g grew pages pc m ↦
              grown-Allocates g few grew
                (pages ∙ ap (λ k. e.cache.file.pages ++ replicate k cleared) one) m
          | failed x g threw unmapped (inl off) ↦ cc
          | failed x g threw unmapped (inr off) ↦ cc
        ]

-- ===== src/PageCache/Frames.antt =====
-- A frame for a page that comes in: from the free frames, or from a victim.
use adaptive_query_accelerat.Common.{
  ℕ, ◌<◌, ◌≡◌, ◌≢◌, ◌⊎◌, inl, inr, sym, ◌∙◌, ap, subst, Option, none, some, List, [], ◌∷◌, All,
  All-weaken, length, length-set, set, ℕ_discrete, arith, Option-cases,
}
use adaptive_query_accelerat.Common.Maps.{
  find, erase, assign, find-erase_ne, erase-some, find-assign_self, find-assign_ne, assign-some,
}
use adaptive_query_accelerat.Common.Linked.{push_front}
use adaptive_query_accelerat.Common.Linked.Shape.{remove-Shape, push_front-Shape}
use adaptive_query_accelerat.PageCache.{PageCache}
use adaptive_query_accelerat.PageCache.Interface.{Policies}
use adaptive_query_accelerat.PageCache.Valid.{Cached, IsValid, Distinct}
use adaptive_query_accelerat.PageCache.Evict.{without_page, IsVictim}

module _ {policies : Policies} {P : Type 0} where
  -- The frame is in the pool, and neither a page nor the list of free frames has it.
  pub record IsReady (c : PageCache policies P) (frame : ℕ) : Type 0 where
    pub valid : IsValid c
    pub in_pool : frame < length c.pool
    pub unused : (page_id : ℕ) → ¬ Cached c page_id frame
    pub not_free : All (λ f. f ≢ frame) c.free_frames

  module _ {c : PageCache policies P} (v : IsValid c) where
    not_free_of_cached :
        (fs : List ℕ) (page_id frame : ℕ)
        → All (λ f. (q : ℕ) → ¬ Cached c q f) fs
        → Cached c page_id frame
        → All (λ f. f ≢ frame) fs
    not_free_of_cached [] page_id frame h cached = tt
    not_free_of_cached (f ∷ fs) page_id frame h cached = (
      (λ e. h.0 page_id (cached ∙ ap some (sym e))),
      not_free_of_cached fs page_id frame h.1 cached,
    )

    pub without_page-IsReady :
        (victim frame it : ℕ) (page : P) (policy : Option (policies.Policy))
        → IsVictim c victim frame it page
        → IsReady (without_page c victim it page policy) frame
    without_page-IsReady victim frame it page policy w =
        let m = c.page_map in
        let old = λ (p f : ℕ) (h : find ℕ_discrete p (erase ℕ_discrete victim m) ≡ some f).
          erase-some ℕ_discrete victim p m h in
        record {
          valid = record {
            counts = v.counts;
            shape = remove-Shape ℕ_discrete (λ p. p) v.shape it w.here;
            listed = λ p f h.
                let (other, was) = old p f h in
                let (i, found) = v.listed p f was in
                (i, find-erase_ne ℕ_discrete victim p c.lru_iters other ∙ found);
            mapped = λ p i h.
                let (other, was) = erase-some ℕ_discrete victim p c.lru_iters h in
                let (f, found) = v.mapped p i was in
                (f, find-erase_ne ℕ_discrete victim p m other ∙ found);
            in_pool = λ p f h. v.in_pool p f (old p f h).1;
            injective = λ p q f hp hq. v.injective p q f (old p f hp).1 (old q f hq).1;
            free_in = v.free_in;
            free_unused =
                All-weaken (λ f. (p : ℕ) → ¬ Cached c p f)
                  (λ f. (p : ℕ) → find ℕ_discrete p (erase ℕ_discrete victim m) ≢ some f)
                  (λ f u p h. u p (old p f h).1) c.free_frames v.free_unused;
            free_distinct = v.free_distinct;
            on_file = λ p f h.
                subst (λ n. p < n) (sym (length-set c.file.pages victim page))
                  (v.on_file p f (old p f h).1);
            file = record {
              mapped = λ h. v.file.mapped (omega (arith, length-set c.file.pages victim page));
              counted = v.file.counted ∙ sym (length-set c.file.pages victim page);
              below_4gb = omega (arith, v.file.below_4gb, length-set c.file.pages victim page);
            };
          };
          in_pool = v.in_pool victim frame w.cached;
          unused = λ p h.
              let (other, was) = old p frame h in other (v.injective victim p frame w.cached was);
          not_free = not_free_of_cached c.free_frames victim frame v.free_unused w.cached;
        }

    pub free-IsReady :
        (frame : ℕ) (frames : List ℕ)
        → c.free_frames ≡ frame ∷ frames
        → IsReady (record c { free_frames = frames }) frame
    free-IsReady frame frames e =
        let inside = subst (All (λ f. f < length c.pool)) e v.free_in in
        let unused = subst (All (λ f. (p : ℕ) → ¬ Cached c p f)) e v.free_unused in
        let distinct = subst Distinct e v.free_distinct in
        record {
          valid = record {
            counts = v.counts;
            shape = v.shape;
            listed = v.listed;
            mapped = v.mapped;
            in_pool = v.in_pool;
            injective = v.injective;
            free_in = inside.1;
            free_unused = unused.1;
            free_distinct = distinct.1;
            on_file = v.on_file;
            file = v.file;
          };
          in_pool = inside.0;
          unused = unused.0;
          not_free = distinct.0;
        }

  -- The cache with a page put into a frame that is ready.
  abbrev pub with_page : PageCache policies P → ℕ → ℕ → P → PageCache policies P
  with_page c page_id frame page = record c {
    pool = set c.pool frame page;
    page_map = assign ℕ_discrete page_id frame c.page_map;
    lru_list = push_front page_id c.lru_list;
    lru_iters = assign ℕ_discrete page_id c.lru_list.fresh c.lru_iters;
    pin_counts = set c.pin_counts frame 1;
  }

  -- The pages of the new cache: the one that came in, and those that were there.
  pub with_page-Cached :
      (c : PageCache policies P) (page_id frame : ℕ) (page : P) (q f : ℕ)
      → Cached (with_page c page_id frame page) q f
      → ((page_id ≡ q) × (frame ≡ f)) ⊎ ((page_id ≢ q) × Cached c q f)
  with_page-Cached c page_id frame page q f h = assign-some ℕ_discrete page_id q frame c.page_map h

  pub with_page-IsValid :
      {c : PageCache policies P} (page_id frame : ℕ) (page : P)
      → IsReady c frame
      → find ℕ_discrete page_id c.page_map ≡ none
      → page_id < length c.file.pages
      → IsValid (with_page c page_id frame page)
  with_page-IsValid {c} page_id frame page r absent in_file =
      let v = r.valid in
      let size = length-set c.pool frame page in
      let arrived = with_page-Cached c page_id frame page in
      record {
        counts = length-set c.pin_counts frame 1 ∙ v.counts ∙ sym size;
        shape = push_front-Shape ℕ_discrete (λ p. p) v.shape page_id unlisted;
        listed = λ q f h. elim (arrived q f h) [
          | inl (e, _) ↦ (
            c.lru_list.fresh,
            subst
                (λ p.
                  find ℕ_discrete p (assign ℕ_discrete page_id c.lru_list.fresh c.lru_iters)
                  ≡ some c.lru_list.fresh)
                e (find-assign_self ℕ_discrete page_id c.lru_list.fresh c.lru_iters),
          )
          | inr (ne, was) ↦
              let (i, found) = v.listed q f was in
              (i, find-assign_ne ℕ_discrete page_id q c.lru_list.fresh c.lru_iters ne ∙ found)
        ];
        mapped = λ q i h. elim (assign-some ℕ_discrete page_id q c.lru_list.fresh c.lru_iters h) [
          | inl (e, _) ↦ (
            frame,
            subst (λ p. find ℕ_discrete p (assign ℕ_discrete page_id frame c.page_map) ≡ some frame)
                e (find-assign_self ℕ_discrete page_id frame c.page_map),
          )
          | inr (ne, was) ↦
              let (f, found) = v.mapped q i was in
              (f, find-assign_ne ℕ_discrete page_id q frame c.page_map ne ∙ found)
        ];
        in_pool = λ q f h. elim (arrived q f h) [
          | inl (_, e) ↦ omega (arith, size, r.in_pool)
          | inr (_, was) ↦ omega (arith, size, v.in_pool q f was)
        ];
        injective = λ p q f hp hq. same_page p q f (arrived p f hp) (arrived q f hq);
        free_in =
            All-weaken (λ f. f < length c.pool) (λ f. f < length (set c.pool frame page))
              (λ f (h : f < length c.pool). omega (arith, size)) c.free_frames v.free_in;
        free_unused = still_free c.free_frames v.free_unused r.not_free;
        free_distinct = v.free_distinct;
        on_file = λ q f h. elim (arrived q f h) [
          | inl (e, _) ↦ subst (λ p. p < length c.file.pages) e in_file
          | inr (_, was) ↦ v.on_file q f was
        ];
        file = v.file;
      }
    where
      unlisted : find ℕ_discrete page_id c.lru_iters ≡ none
      unlisted = elim (Option-cases (find ℕ_discrete page_id c.lru_iters)) [
        | inl e ↦ e
        | inr (i, e) ↦ absurd (let (f, h) = r.valid.mapped page_id i e in cc (absent, h))
      ]

      same_page :
          (p q f : ℕ)
          → ((page_id ≡ p) × (frame ≡ f)) ⊎ ((page_id ≢ p) × Cached c p f)
          → ((page_id ≡ q) × (frame ≡ f)) ⊎ ((page_id ≢ q) × Cached c q f)
          → p ≡ q
      same_page p q f (inl a) (inl b) = sym a.0 ∙ b.0
      same_page p q f (inl a) (inr b) = absurd (r.unused q (b.1 ∙ ap some (sym a.1)))
      same_page p q f (inr a) (inl b) = absurd (r.unused p (a.1 ∙ ap some (sym b.1)))
      same_page p q f (inr a) (inr b) = r.valid.injective p q f a.1 b.1

      still_free :
          (fs : List ℕ)
          → All (λ f. (p : ℕ) → ¬ Cached c p f) fs
          → All (λ f. f ≢ frame) fs
          → All (λ f. (p : ℕ) → ¬ Cached (with_page c page_id frame page) p f) fs
      still_free [] u n = tt
      still_free (f ∷ fs) u n = (
        (λ p h. elim (with_page-Cached c page_id frame page p f h) [
          | inl (_, e) ↦ n.0 (sym e)
          | inr (_, was) ↦ u.0 p was
        ]),
        still_free fs u.1 n.1,
      )

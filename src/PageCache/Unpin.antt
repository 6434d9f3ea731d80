-- ===== src/PageCache/Unpin.antt =====
-- `unpin_page`: one pin less for the page, and nothing else.
use adaptive_query_accelerat.Common.{
  ℕ, ◌-◌, ◌≡◌, ◌≢◌, inl, inr, refl, sym, ◌∙◌, ap, subst, Option, none, some, get_or, set,
  length-set, get_or-set_self, get_or-set_ne, ℕ_discrete, arith, Bool-cases, ltb, ◌==◌,
  if◌then◌else◌,
}
use adaptive_query_accelerat.Common.Maps.{find}
use adaptive_query_accelerat.PageCache.{PageCache, unpin_at, unpin_page}
use adaptive_query_accelerat.PageCache.Interface.{Policies}
use adaptive_query_accelerat.PageCache.Valid.{Cached, IsValid}
use adaptive_query_accelerat.PageCache.View.{content, content_at_same, pins, pins_lem, pins-none}

module _ {policies : Policies} {P : Type 0} where
  -- The cache keeps its pages, frames and contents, and each page its pins, but for the one.
  pub record Unpinned (c : PageCache policies P) (page_id : ℕ) (c' : PageCache policies P)
      : Type 0 where
    pub valid : IsValid c'
    pub same_pages : c'.page_map ≡ c.page_map
    pub transparent : (q : ℕ) → content c' q ≡ content c q
    pub pinned : (q : ℕ) → pins c' q ≡ pins c q - (if page_id == q then 1 else 0)

  module _ {c : PageCache policies P} (v : IsValid c) (page_id : ℕ) where
    unchanged : pins c page_id ≡ 0 → Unpinned c page_id c
    unchanged h = record {
      valid = v;
      same_pages = refl;
      transparent = λ q. refl;
      pinned = λ q. elim (ℕ_discrete page_id q) [
        | yes p ↦ let none_left = subst (λ x. pins c x ≡ 0) p h in ground arith
        | no p ↦ ground arith
      ];
    }

    abbrev lowered : ℕ → PageCache policies P
    lowered frame = record c {
      pin_counts = set c.pin_counts frame (get_or c.pin_counts frame 0 - 1);
    }

    lowered-Unpinned : (frame : ℕ) → Cached c page_id frame → Unpinned c page_id (lowered frame)
    lowered-Unpinned frame cached = record {
      valid = record {
        counts = length-set c.pin_counts frame (get_or c.pin_counts frame 0 - 1) ∙ v.counts;
        shape = v.shape;
        listed = v.listed;
        mapped = v.mapped;
        in_pool = v.in_pool;
        injective = v.injective;
        free_in = v.free_in;
        free_unused = v.free_unused;
        free_distinct = v.free_distinct;
        on_file = v.on_file;
        file = v.file;
      };
      same_pages = refl;
      transparent =
          λ q. content_at_same c (lowered frame) (find ℕ_discrete q c.page_map) q refl refl;
      pinned = λ q. elim (ℕ_discrete page_id q) [
        | yes p ↦
            let now : pins (lowered frame) page_id ≡ get_or c.pin_counts frame 0 - 1 =
              pins_lem (lowered frame) page_id frame cached
              ∙ get_or-set_self c.pin_counts frame (get_or c.pin_counts frame 0 - 1) 0
                  (omega (arith, v.counts, v.in_pool page_id frame cached)) in
            subst (λ x. pins (lowered frame) x ≡ pins c x - (if page_id == x then 1 else 0)) p
              (ground (arith, now, pins_lem c page_id frame cached))
        | no p ↦ ground (arith, others q (find ℕ_discrete q c.page_map) refl p)
      ];
    }
      where
        others :
            (q : ℕ) (o : Option ℕ)
            → find ℕ_discrete q c.page_map ≡ o
            → page_id ≢ q
            → pins (lowered frame) q ≡ pins c q
        others q none e p = pins-none (lowered frame) q e ∙ sym (pins-none c q e)
        others q (some f) e p =
            pins_lem (lowered frame) q f e
            ∙ get_or-set_ne c.pin_counts frame f (get_or c.pin_counts frame 0 - 1) 0
                (λ h. p (v.injective page_id q frame cached (e ∙ ap some (sym h))))
            ∙ sym (pins_lem c q f e)

    -- On a valid cache, unpinning a page takes one pin from it, if it has any, and keeps the cache
    -- valid, the other pins, which pages are cached where, and the content of every page.
    pub unpin_page-Unpinned : Unpinned c page_id (unpin_page policies page_id c)
    unfolding unpin_page
    unpin_page-Unpinned = on_frame (find ℕ_discrete page_id c.page_map) refl
      where
        on_frame :
            (o : Option ℕ)
            → find ℕ_discrete page_id c.page_map ≡ o
            → Unpinned c page_id (unpin_page policies page_id c)
        on_frame none e =
            subst (Unpinned c page_id) (sym (ap (λ o. unpin_at policies o c) e))
              (unchanged (pins-none c page_id e))
        on_frame (some frame) e =
            subst (Unpinned c page_id) (sym (ap (λ o. unpin_at policies o c) e))
              (elim (Bool-cases (ltb 0 (get_or c.pin_counts frame 0))) [
                | inl some_left ↦
                    subst (Unpinned c page_id) {x = lowered frame} (rw some_left)
                      (lowered-Unpinned frame e)
                | inr none_left ↦
                    subst (Unpinned c page_id) {x = c} (rw none_left)
                      (unchanged (pins_lem c page_id frame e ∙ ground arith))
              ])

-- ===== src/PageCache/View.antt =====
-- What clients see through the cache: the content of each page, and how often it is pinned.
use adaptive_query_accelerat.Common.{
  ℕ, ◌+◌, ◌<◌, ◌≡◌, ◌≢◌, refl, sym, ◌∙◌, ap, subst, Option, none, some, get_or, get_elem?,
  get_elem?-set_self, get_elem?-set_ne, get_or-set_self, get_or-set_ne, ℕ_discrete, arith, ◌==◌,
  if◌then◌else◌,
}
use adaptive_query_accelerat.Common.Maps.{
  find, find-erase, find-erase_ne, find-assign_self, find-assign_ne,
}
use adaptive_query_accelerat.PageCache.{PageCache, pin_count_at, get_pin_count}
use adaptive_query_accelerat.PageCache.Interface.{Policies}
use adaptive_query_accelerat.PageCache.Valid.{Cached, IsValid}
use adaptive_query_accelerat.PageCache.Evict.{without_page, IsVictim}
use adaptive_query_accelerat.PageCache.Frames.{IsReady, with_page}

module _ {policies : Policies} {P : Type 0} where
  abbrev pub content_at : Option ℕ → PageCache policies P → ℕ → Option P
  content_at none c page_id = get_elem? c.file.pages page_id
  content_at (some frame) c page_id = get_elem? c.pool frame

  -- The frame's content for a cached page, and the file's for any other.
  abbrev pub content : PageCache policies P → ℕ → Option P
  content c page_id = content_at (find ℕ_discrete page_id c.page_map) c page_id

  pub content_at_same :
      (c c' : PageCache policies P) (o : Option ℕ) (q : ℕ)
      → c'.pool ≡ c.pool
      → c'.file.pages ≡ c.file.pages
      → content_at o c' q ≡ content_at o c q
  content_at_same c c' none q pool pages = ap (λ l. get_elem? l q) pages
  content_at_same c c' (some f) q pool pages = ap (λ l. get_elem? l f) pool

  pub pin_count_at_same :
      (c c' : PageCache policies P) (o : Option ℕ)
      → c'.pin_counts ≡ c.pin_counts
      → pin_count_at policies o c' ≡ pin_count_at policies o c
  pin_count_at_same c c' none same = refl
  pin_count_at_same c c' (some f) same = ap (λ l. get_or l f 0) same

  abbrev pub pins : PageCache policies P → ℕ → ℕ
  pins c page_id = get_pin_count policies page_id c

  pub pins_lem :
      (c : PageCache policies P) (page_id frame : ℕ)
      → Cached c page_id frame
      → pins c page_id ≡ get_or c.pin_counts frame 0
  unfolding get_pin_count
  pins_lem c page_id frame h = ap (λ o. pin_count_at policies o c) h

  pub pins-none :
      (c : PageCache policies P) (page_id : ℕ)
      → find ℕ_discrete page_id c.page_map ≡ none
      → pins c page_id ≡ 0
  unfolding get_pin_count
  pins-none c page_id h = ap (λ o. pin_count_at policies o c) h

  module _ {c : PageCache policies P} (v : IsValid c) (victim frame it : ℕ) (page : P)
      (policy : Option (policies.Policy)) (w : IsVictim c victim frame it page) where
    abbrev after : PageCache policies P
    after = without_page c victim it page policy

    gone : find ℕ_discrete victim after.page_map ≡ none
    gone = find-erase ℕ_discrete victim victim c.page_map ∙ ground arith

    pub content-without_page : (q : ℕ) → content after q ≡ content c q
    content-without_page q = elim (ℕ_discrete victim q) [
      | yes p ↦
          subst (λ x. content after x ≡ content c x) p
            (ap (λ o. content_at o after victim) gone
              ∙ get_elem?-set_self c.file.pages victim page (v.on_file victim frame w.cached)
              ∙ sym (ap (λ o. content_at o c victim) w.cached ∙ w.content))
      | no p ↦
          ap (λ o. content_at o after q) (find-erase_ne ℕ_discrete victim q c.page_map p)
          ∙ same (find ℕ_discrete q c.page_map) p
    ]
      where
        same : (o : Option ℕ) → victim ≢ q → content_at o after q ≡ content_at o c q
        same none p = get_elem?-set_ne c.file.pages victim q page p
        same (some f) p = refl

    pub pins-without_page : (q : ℕ) → pins after q ≡ pins c q
    unfolding get_pin_count
    pins-without_page q = elim (ℕ_discrete victim q) [
      | yes p ↦
          subst (λ x. pins after x ≡ pins c x) p
            (pins-none after victim gone ∙ sym (pins_lem c victim frame w.cached ∙ w.not_pinned))
      | no p ↦
          ap (λ o. pin_count_at policies o after) (find-erase_ne ℕ_discrete victim q c.page_map p)
          ∙ same (find ℕ_discrete q c.page_map)
    ]
      where
        same : (o : Option ℕ) → pin_count_at policies o after ≡ pin_count_at policies o c
        same none = refl
        same (some f) = refl

  module _ {c : PageCache policies P} (page_id frame : ℕ) (page : P) (r : IsReady c frame)
      (absent : find ℕ_discrete page_id c.page_map ≡ none)
      (on_disk : get_elem? c.file.pages page_id ≡ some page) where
    abbrev filled : PageCache policies P
    filled = with_page c page_id frame page

    arrived : find ℕ_discrete page_id filled.page_map ≡ some frame
    arrived = find-assign_self ℕ_discrete page_id frame c.page_map

    pub content-with_page : (q : ℕ) → content filled q ≡ content c q
    content-with_page q = elim (ℕ_discrete page_id q) [
      | yes p ↦
          subst (λ x. content filled x ≡ content c x) p
            (ap (λ o. content_at o filled page_id) arrived
              ∙ get_elem?-set_self c.pool frame page r.in_pool
              ∙ sym (ap (λ o. content_at o c page_id) absent ∙ on_disk))
      | no p ↦
          ap (λ o. content_at o filled q) (find-assign_ne ℕ_discrete page_id q frame c.page_map p)
          ∙ same (find ℕ_discrete q c.page_map) refl
    ]
      where
        same :
            (o : Option ℕ)
            → find ℕ_discrete q c.page_map ≡ o
            → content_at o filled q ≡ content_at o c q
        same none e = refl
        same (some f) e =
            get_elem?-set_ne c.pool frame f page (λ h. r.unused q (e ∙ ap some (sym h)))

    pub pins-with_page : (q : ℕ) → pins filled q ≡ pins c q + (if page_id == q then 1 else 0)
    pins-with_page q = elim (ℕ_discrete page_id q) [
      | yes p ↦
          let now : pins filled page_id ≡ 1 =
            pins_lem filled page_id frame arrived
            ∙ get_or-set_self c.pin_counts frame 1 0
                (subst (λ n. frame < n) (sym r.valid.counts) r.in_pool) in
          let before : pins c page_id ≡ 0 = pins-none c page_id absent in
          subst (λ x. pins filled x ≡ pins c x + (if page_id == x then 1 else 0)) p
            (ground (arith, now, before))
      | no p ↦
          let kept : pins filled q ≡ pins c q =
            unfold get_pin_count in
            ap (λ o. pin_count_at policies o filled)
              (find-assign_ne ℕ_discrete page_id q frame c.page_map p)
            ∙ same (find ℕ_discrete q c.page_map) refl in
          ground (arith, kept)
    ]
      where
        same :
            (o : Option ℕ)
            → find ℕ_discrete q c.page_map ≡ o
            → pin_count_at policies o filled ≡ pin_count_at policies o c
        same none e = refl
        same (some f) e =
            get_or-set_ne c.pin_counts frame f 1 0 (λ h. r.unused q (e ∙ ap some (sym h)))

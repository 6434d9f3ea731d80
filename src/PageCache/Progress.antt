-- ===== src/PageCache/Progress.antt =====
-- When a fetch returns, and a fetch whose handle is given back at once.
use adaptive_query_accelerat.Common.{
  ℕ, ◌≤◌, ◌<◌, ◌≡◌, ◌≢◌, ◌⊎◌, inl, inr, refl, sym, ◌∙◌, ap, none, some, Option-cases, [], length,
  get_elem?, ℕ_discrete, get_elem?-some, get_elem?-none, arith,
}
use native.Mathlib.Decide.{dec_le}
use adaptive_query_accelerat.Common.Maps.{find}
use adaptive_query_accelerat.PageCache.{PageCache, unpin_page}
use adaptive_query_accelerat.PageCache.Interface.{Policies}
use adaptive_query_accelerat.PageCache.Valid.{Cached, IsValid}
use adaptive_query_accelerat.PageCache.View.{content, content_at, pins, pins_lem}
use adaptive_query_accelerat.PageCache.Fetch.{Fetched, fetched, full, get_page_internal-Fetches}
use adaptive_query_accelerat.PageCache.Unpin.{unpin_page-Unpinned}

module _ {policies : Policies} {P : Type 0} where
  -- A fetch of any page finds a frame.
  abbrev pub HasFrame : PageCache policies P → Type 0
  HasFrame c =
      (c.free_frames ≢ [])
      ⊎ ((page_id : ℕ) × (frame : ℕ) × Cached c page_id frame × (pins c page_id ≡ 0))

  abbrev pub Returns : PageCache policies P → ℕ → Type 0
  Returns c page_id = (frame : ℕ) × (c' : PageCache policies P) × Fetched c page_id frame c'

  pub fetch-Returns :
      {c : PageCache policies P} (page_id : ℕ)
      → IsValid c
      → HasFrame c
      → page_id < length c.file.pages
      → Returns c page_id
  fetch-Returns {c} page_id v room in_file = elim (get_page_internal-Fetches v page_id in_file) [
    | fetched frame c' f ↦ (frame, c', f)
    | full e busy empty miss ↦ elim room [
      | inl free ↦ absurd (free empty)
      | inr (q, f, cached, idle) ↦
          let one = busy q f cached in
          let zero_pins = sym (pins_lem c q f cached) ∙ idle in absurd (omega arith)
    ]
  ]

  pub fetch-Returns_cached :
      {c : PageCache policies P} (page_id frame : ℕ)
      → IsValid c
      → Cached c page_id frame
      → Returns c page_id
  fetch-Returns_cached {c} page_id frame v cached =
      elim (get_page_internal-Fetches v page_id (v.on_file page_id frame cached)) [
        | fetched frame' c' f ↦ (frame', c', f)
        | full e busy empty miss ↦ absurd (cc (cached, miss))
      ]

  -- The cache as other users see it: its pages, their contents and their pins.
  pub record Alike (c c' : PageCache policies P) : Type 0 where
    pub valid : IsValid c'
    pub transparent : (q : ℕ) → content c' q ≡ content c q
    pub pinned : (q : ℕ) → pins c' q ≡ pins c q

  pub Alike-refl : (c : PageCache policies P) → IsValid c → Alike c c
  Alike-refl c v = record { valid = v; transparent = λ q. refl; pinned = λ q. refl }

  pub Alike-trans : (a b c : PageCache policies P) → Alike a b → Alike b c → Alike a c
  Alike-trans a b c h k = record {
    valid = k.valid;
    transparent = λ q. k.transparent q ∙ h.transparent q;
    pinned = λ q. k.pinned q ∙ h.pinned q;
  }

  -- A handle that is given back leaves the cache as it was for the others, with its page cached,
  -- whatever its owner did in between that the others do not see.
  pub scoped-Alike :
      {c c' c'' : PageCache policies P} (page_id frame frame' : ℕ)
      → Fetched c page_id frame c'
      → Alike c' c''
      → Cached c'' page_id frame'
      → Alike c (unpin_page policies page_id c'')
        × Cached (unpin_page policies page_id c'') page_id frame'
  scoped-Alike page_id frame frame' f k cached =
      let u = unpin_page-Unpinned k.valid page_id in
      (
        record {
          valid = u.valid;
          transparent = λ q. u.transparent q ∙ k.transparent q ∙ f.transparent q;
          pinned = λ q. u.pinned q ∙ (let p = f.pinned q in let same = k.pinned q in omega arith);
        },
        ap (find ℕ_discrete page_id) u.same_pages ∙ cached,
      )

  pub unpin-Alike :
      {c c' : PageCache policies P} (page_id frame : ℕ)
      → Fetched c page_id frame c'
      → Alike c (unpin_page policies page_id c')
        × Cached (unpin_page policies page_id c') page_id frame
  unpin-Alike {c} {c'} page_id frame f =
      scoped-Alike page_id frame frame f (Alike-refl c' f.valid) f.cached

  -- The content of a page that is cached is what its frame holds.
  pub content-Cached :
      (c : PageCache policies P) (page_id frame : ℕ)
      → Cached c page_id frame
      → content c page_id ≡ get_elem? c.pool frame
  content-Cached c page_id frame cached = ap (λ o. content_at o c page_id) cached

  -- Each page of the file has a content, and no other has.
  pub content-some :
      (c : PageCache policies P) (page_id : ℕ)
      → IsValid c
      → page_id < length c.file.pages
      → (page : P) × (content c page_id ≡ some page)
  content-some c page_id v h = elim (Option-cases (find ℕ_discrete page_id c.page_map)) [
    | inl miss ↦
        let (page, e) = get_elem?-some c.file.pages page_id h in
        (page, ap (λ o. content_at o c page_id) miss ∙ e)
    | inr (frame, cached) ↦
        let (page, e) = get_elem?-some c.pool frame (v.in_pool page_id frame cached) in
        (page, content-Cached c page_id frame cached ∙ e)
  ]

  pub content-none :
      (c : PageCache policies P) (page_id : ℕ)
      → IsValid c
      → length c.file.pages ≤ page_id
      → content c page_id ≡ none
  content-none c page_id v h = elim (Option-cases (find ℕ_discrete page_id c.page_map)) [
    | inl miss ↦ ap (λ o. content_at o c page_id) miss ∙ get_elem?-none c.file.pages page_id h
    | inr (frame, cached) ↦ let inside = v.on_file page_id frame cached in absurd (omega arith)
  ]

  length-le :
      (c c' : PageCache policies P)
      → IsValid c
      → IsValid c'
      → ((q : ℕ) → content c' q ≡ content c q)
      → length c.file.pages ≤ length c'.file.pages
  length-le c c' v v' same = elim (dec_le (length c.file.pages) (length c'.file.pages)) [
    | yes h ↦ h
    | no h ↦
        let n = length c'.file.pages in
        let (page, e) = content-some c n v (omega arith) in
        let gone = sym (same n) ∙ content-none c' n v' (omega arith) in cc
  ]

  pub length-Alike :
      (c c' : PageCache policies P)
      → IsValid c
      → IsValid c'
      → ((q : ℕ) → content c' q ≡ content c q)
      → length c'.file.pages ≡ length c.file.pages
  length-Alike c c' v v' same =
      omega (arith, length-le c c' v v' same, length-le c' c v' v (λ q. sym (same q)))

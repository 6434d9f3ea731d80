-- ===== src/PageCache/Reach.antt =====
-- However handles are fetched, moved and dropped, the cache pins exactly the pages that they hold.
use adaptive_query_accelerat.Common.{
  ℕ, zero, suc, ◌+◌, ◌-◌, ◌≤◌, ◌<◌, ◌≡◌, ◌≢◌, refl, ◌∙◌, ap, subst, Option, none, some, List, [],
  ◌∷◌, All, length, get_elem?, set, arith, ◌==◌, if◌then◌else◌, ℕ_discrete, get_elem?-set_ne,
}
use adaptive_query_accelerat.Common.Maps.{find}
use adaptive_query_accelerat.MappedFile.{Result, ok, thrown}
use adaptive_query_accelerat.PageCache.{PageCache, init, count_miss, get_pin_count}
use adaptive_query_accelerat.PageCache.Interface.{Policies}
use adaptive_query_accelerat.PageCache.Valid.{Cached, IsMapped, IsValid}
use adaptive_query_accelerat.PageCache.View.{pins, pin_count_at_same}
use adaptive_query_accelerat.PageCache.Fetch.{
  Fetched, fetched, full, missed-IsValid, get_page_internal-Fetches,
}
use adaptive_query_accelerat.MappedFile.{MappedFile}
use adaptive_query_accelerat.Observer.{AccessObserver}
use adaptive_query_accelerat.PageCache.Init.{init-IsValid, pins-init}
use adaptive_query_accelerat.PageCache.Unpin.{unpin_page-Unpinned}
use adaptive_query_accelerat.PageCache.Handles.{
  PageHandle, Variable, destroy, move_assign, move_construct, fetch_page, Pool, Step, Steps,
  fetches, fails, destroys, constructs, assigns, start, then_step,
}

abbrev pub holds : ℕ → Variable → ℕ
holds q none = 0
holds q (some h) = if h.page_id == q then 1 else 0

-- How many of the variables hold a handle to the page.
unfoldable pub live : ℕ → List Variable → ℕ
live q [] = 0
live q (v ∷ vars) = live q vars + holds q v

live-set :
    (q : ℕ) (vars : List Variable) (i : ℕ) (old v : Variable)
    → get_elem? vars i ≡ some old
    → live q (set vars i v) + holds q old ≡ live q vars + holds q v
unfolding live
live-set q [] i old v h = cc
live-set q (w ∷ vars) zero old v h = let same : w ≡ old = cc in rw same (omega arith)
live-set q (w ∷ vars) (suc i) old v h = let ih = live-set q vars i old v h in omega arith

module _ {policies : Policies} {P : Type 0} where
  abbrev pub Placed : PageCache policies P → Variable → Type 0
  Placed c none = Unit
  Placed c (some h) = Cached c h.page_id h.frame

  pub record IsPinned (p : Pool policies P) : Type 0 where
    pub valid : IsValid p.cache
    pub counted : (q : ℕ) → pins p.cache q ≡ live q p.vars
    pub placed : All (Placed p.cache) p.vars

  All-set :
      (c : PageCache policies P) (vars : List Variable) (i : ℕ) (v : Variable)
      → Placed c v
      → All (Placed c) vars
      → All (Placed c) (set vars i v)
  All-set c [] i v hv h = tt
  All-set c (w ∷ vars) zero v hv h = (hv, h.1)
  All-set c (w ∷ vars) (suc i) v hv h = (h.0, All-set c vars i v hv h.1)

  Placed-at :
      (c : PageCache policies P) (vars : List Variable) (i : ℕ) (v : Variable)
      → get_elem? vars i ≡ some v
      → All (Placed c) vars
      → Placed c v
  Placed-at c [] i v e h = cc
  Placed-at c (w ∷ vars) zero v e h = let same : w ≡ v = cc in subst (Placed c) same h.0
  Placed-at c (w ∷ vars) (suc i) v e h = Placed-at c vars i v e h.1

  -- A step that keeps every pinned page in its frame keeps the handles' pages there.
  keeps_Placed :
      (c c' : PageCache policies P) (vars : List Variable)
      → ((q : ℕ) → live q vars ≤ pins c q)
      → ((q f : ℕ) → Cached c q f → 0 < pins c q → Cached c' q f)
      → All (Placed c) vars
      → All (Placed c') vars
  unfolding live
  keeps_Placed c c' [] few kept h = tt
  keeps_Placed c c' (none ∷ vars) few kept h =
      (tt, keeps_Placed c c' vars (λ q. let b = few q in omega arith) kept h.1)
  keeps_Placed c c' (some v ∷ vars) few kept h = (
    kept v.page_id v.frame h.0 (let b = few v.page_id in ground arith),
    keeps_Placed c c' vars (λ q. let b = few q in ground arith) kept h.1,
  )

  same-Placed :
      (c c' : PageCache policies P) (vars : List Variable)
      → c'.page_map ≡ c.page_map
      → All (Placed c) vars
      → All (Placed c') vars
  same-Placed c c' [] same h = tt
  same-Placed c c' (none ∷ vars) same h = (tt, same-Placed c c' vars same h.1)
  same-Placed c c' (some v ∷ vars) same h =
      (ap (find ℕ_discrete v.page_id) same ∙ h.0, same-Placed c c' vars same h.1)

  -- What the destructor does to the cache of a handle that counts among the pins.
  record Destroyed (c : PageCache policies P) (v : Variable) (c' : PageCache policies P)
      : Type 0 where
    valid : IsValid c'
    same_pages : c'.page_map ≡ c.page_map
    pinned : (q : ℕ) → pins c' q ≡ pins c q - holds q v

  destroy-Destroyed :
      (c : PageCache policies P) (v : Variable) → IsValid c → Destroyed c v (destroy policies v c)
  unfolding destroy
  destroy-Destroyed c none h = record { valid = h; same_pages = refl; pinned = λ q. omega arith }
  destroy-Destroyed c (some v) h =
      let u = unpin_page-Unpinned h v.page_id in
      record { valid = u.valid; same_pages = u.same_pages; pinned = u.pinned }

  destroyed-IsPinned :
      {p : Pool policies P} (i : ℕ) (v : Variable)
      → get_elem? p.vars i ≡ some v
      → IsPinned p
      → IsPinned (record { cache = destroy policies v p.cache; vars = set p.vars i none })
  destroyed-IsPinned {p} i v at k =
      let d = destroy-Destroyed p.cache v k.valid in
      record {
        valid = d.valid;
        counted = λ q.
            let before = k.counted q in
            let now = d.pinned q in let moved = live-set q p.vars i v none at in omega arith;
        placed =
            All-set (destroy policies v p.cache) p.vars i none tt
              (same-Placed p.cache (destroy policies v p.cache) p.vars d.same_pages k.placed);
      }

  assigned-IsPinned :
      {p : Pool policies P} (i j : ℕ) (target source : Variable)
      → i ≢ j
      → get_elem? p.vars i ≡ some target
      → get_elem? p.vars j ≡ some source
      → IsPinned p
      → IsPinned (record {
        cache = destroy policies target p.cache;
        vars = set (set p.vars i source) j none;
      })
  assigned-IsPinned {p} i j target source other at_i at_j k =
      let c' : PageCache policies P = destroy policies target p.cache in
      let d = destroy-Destroyed p.cache target k.valid in
      let at_j' = get_elem?-set_ne p.vars i j source other ∙ at_j in
      let here = same-Placed p.cache c' p.vars d.same_pages k.placed in
      record {
        valid = d.valid;
        counted = λ q.
            let before = k.counted q in
            let now = d.pinned q in
            let moved_i = live-set q p.vars i target source at_i in
            let moved_j = live-set q (set p.vars i source) j source none at_j' in omega arith;
        placed =
            All-set c' (set p.vars i source) j none tt
              (All-set c' p.vars i source (Placed-at c' p.vars j source at_j here) here);
      }

  constructed-IsPinned :
      {p : Pool policies P} (i : ℕ) (v : Variable)
      → get_elem? p.vars i ≡ some v
      → IsPinned p
      → IsPinned (record { cache = p.cache; vars = v ∷ set p.vars i none })
  unfolding live
  constructed-IsPinned {p} i v at k = record {
    valid = k.valid;
    counted =
        λ q. let before = k.counted q in let moved = live-set q p.vars i v none at in omega arith;
    placed = (Placed-at p.cache p.vars i v at k.placed, All-set p.cache p.vars i none tt k.placed);
  }

  Fetched-IsPinned :
      {p : Pool policies P} (page_id frame : ℕ) (c' : PageCache policies P)
      → Fetched p.cache page_id frame c'
      → IsPinned p
      → IsPinned (record {
        cache = c';
        vars = some (record { page_id = page_id; frame = frame }) ∷ p.vars;
      })
  unfolding live
  Fetched-IsPinned {p} page_id frame c' f k = record {
    valid = f.valid;
    counted = λ q.
        let before = k.counted q in
        f.pinned q ∙ ap (λ n. n + (if page_id == q then 1 else 0)) before;
    placed = (
      f.cached,
      keeps_Placed p.cache c' p.vars (λ q. let before = k.counted q in omega arith) f.kept k.placed,
    );
  }

  missed-IsPinned :
      {p : Pool policies P} (page_id : ℕ)
      → IsPinned p
      → IsPinned (record { cache = count_miss policies page_id p.cache; vars = p.vars })
  missed-IsPinned {p} page_id k = record {
    valid = missed-IsValid k.valid page_id;
    counted = λ q.
        unfold get_pin_count in
        pin_count_at_same p.cache (count_miss policies page_id p.cache)
          (find ℕ_discrete q p.cache.page_map) refl
        ∙ k.counted q;
    placed = same-Placed p.cache (count_miss policies page_id p.cache) p.vars refl k.placed;
  }

  -- The pool after a fetch, by its outcome.
  abbrev Outcome : List Variable → Result (PageCache policies P) PageHandle → Type 0
  Outcome vars (ok h c') = IsPinned (record { cache = c'; vars = some h ∷ vars })
  Outcome vars (thrown e c') = IsPinned (record { cache = c'; vars = vars })
  Outcome vars Result.undefined = ⊥

  fetch_page-Outcome :
      {p : Pool policies P} (page_id : ℕ)
      → page_id < length p.cache.file.pages
      → IsPinned p
      → Outcome p.vars (fetch_page policies page_id p.cache)
  unfolding fetch_page
  fetch_page-Outcome {p} page_id in_file k =
      elim (get_page_internal-Fetches k.valid page_id in_file) [
        | fetched frame c' f ↦ rw (f.returned) (Fetched-IsPinned page_id frame c' f k)
        | full e busy empty miss ↦ rw e (missed-IsPinned page_id k)
      ]

  Step-IsPinned : {p p' : Pool policies P} → Step p p' → IsPinned p → IsPinned p'
  unfolding move_assign move_construct
  Step-IsPinned {p} (fetches page_id h c' in_file e) k =
      subst (Outcome p.vars) e (fetch_page-Outcome page_id in_file k)
  Step-IsPinned {p} (fails page_id err c' in_file e) k =
      subst (Outcome p.vars) e (fetch_page-Outcome page_id in_file k)
  Step-IsPinned (destroys i v at) k = destroyed-IsPinned i v at k
  Step-IsPinned (constructs i v at) k = constructed-IsPinned i v at k
  Step-IsPinned {p} (assigns i j target source target' source' c' other at_i at_j e) k =
      subst (λ x. IsPinned (record { cache = x.2; vars = set (set p.vars i (x.0)) j (x.1) })) e
        (assigned-IsPinned i j target source other at_i at_j k)

  Steps-IsPinned : {p p' : Pool policies P} → Steps p p' → IsPinned p → IsPinned p'
  Steps-IsPinned start k = k
  Steps-IsPinned (then_step before s) k = Step-IsPinned s (Steps-IsPinned before k)

-- From a new cache over a mapped file, whatever fetches, moves, assignments and destructions a
-- program does: the cache is valid, a page's pin count is the number of handles to it, and each
-- handle's page is cached in the frame that the handle points into.
pub reached-IsPinned :
    (policies : Policies) {P : Type 0} (fresh_page : P) (file : MappedFile P) (capacity : ℕ)
    (observer : Option AccessObserver) (policy : Option (policies.Policy))
    → IsMapped file
    → (p : Pool policies P)
    → Steps
        (record { cache = init policies P fresh_page file capacity observer policy; vars = [] })
        p
    → IsPinned p
reached-IsPinned policies fresh_page file capacity observer policy m p steps =
    Steps-IsPinned steps (record {
      valid = init-IsValid policies fresh_page file capacity observer policy m;
      counted = λ q. unfold live in pins-init policies fresh_page file capacity observer policy q;
      placed = tt;
    })

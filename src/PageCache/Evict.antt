-- ===== src/PageCache/Evict.antt =====
-- `evict`: it throws exactly when every page is pinned, and else takes an unpinned page out.
use mathlib.Core.Option
use adaptive_query_accelerat.Common.{
  ℕ, ◌*◌, ◌/◌, ◌<◌, ◌≡◌, inl, inr, refl, sym, ◌∙◌, ap, ap₂, subst, Option, none, some, List, [],
  ◌∷◌, reverse, All, length, get_or, get_elem?, set, ℕ_discrete, arith, IsIn, IsIn-reverse,
  reverse-IsIn, All-IsIn, ◌==◌, if◌then◌else◌, Bool-cases, get_elem?_total, u32,
}
use adaptive_query_accelerat.Common.Maps.{Map, find, erase}
use adaptive_query_accelerat.Common.Linked.{at?, remove_at, values}
use adaptive_query_accelerat.Common.Linked.Laws.{
  address_of, at?-address_of, address_of_total, values-IsIn,
}
use adaptive_query_accelerat.MappedFile
use adaptive_query_accelerat.MappedFile.{
  MappedFile, Result, ok, thrown, undefined, pool_full, Pointer, slot, null, wild,
}
use adaptive_query_accelerat.Observer.{AccessObserver}
use adaptive_query_accelerat.PageCache.{
  PageCache, insert_default, frame_at, unpinned_from, choose, write_back, write_back_to,
  remove_with, remove_victim, evict_from, evict,
}
use adaptive_query_accelerat.PageCache.Interface.{Policies}
use adaptive_query_accelerat.PageCache.Valid.{IsMapped, Cached, IsValid}

-- In a file below 4 GB the pointer is the page's own slot, inside the mapping.
pub get_page_lem :
    {P : Type 0} {f : MappedFile P} (page_id : ℕ)
    → IsMapped f
    → page_id < length f.pages
    → MappedFile.get_page f page_id ≡ slot page_id
unfolding MappedFile.get_page
get_page_lem {f = f} page_id m h =
    let own : u32 (page_id * 4096) / 4096 ≡ page_id = omega (arith, m) in
    rw (m.mapped (omega arith), own)

pub store_lem :
    {P : Type 0} {f : MappedFile P} (page_id : ℕ) (page : P)
    → IsMapped f
    → page_id < length f.pages
    → MappedFile.store f (MappedFile.get_page f page_id) page
      ≡ some (record f { pages = set f.pages page_id page })
unfolding MappedFile.store
store_lem {f = f} page_id page m h = rw (get_page_lem page_id m h) (ground arith)

pub load_lem :
    {P : Type 0} {f : MappedFile P} (page_id : ℕ)
    → IsMapped f
    → page_id < length f.pages
    → (page : P) × (MappedFile.load f (MappedFile.get_page f page_id) ≡ some page)
      × (get_elem? f.pages page_id ≡ some page)
unfolding MappedFile.load
load_lem {f = f} page_id m h =
    let (page, found) = get_elem?_total f.pages page_id h in
    (page, rw (get_page_lem page_id m h) found, found)

-- The candidates: the unpinned pages, in the order of the list.
unfoldable pub unpinned : List ℕ → Map ℕ ℕ → List ℕ → List ℕ
unpinned pins m [] = []
unpinned pins m (pid ∷ pids) =
    let rest = unpinned pins m pids in
    if get_or pins (frame_at pid m) 0 == 0 then pid ∷ rest else rest

abbrev HasFrame : Map ℕ ℕ → ℕ → Type 0
HasFrame m pid = (frame : ℕ) × (find ℕ_discrete pid m ≡ some frame)

unpinned_from_lem :
    (pins : List ℕ) (m : Map ℕ ℕ) (pids : List ℕ)
    → All (HasFrame m) pids
    → unpinned_from pins m pids ≡ (unpinned pins m pids, m)
unfolding unpinned_from unpinned
unpinned_from_lem pins m [] h = refl
unpinned_from_lem pins m (pid ∷ pids) h =
    ap (λ r. (if get_or pins (frame_at pid m) 0 == 0 then pid ∷ r.0 else r.0, r.1))
      (ap (λ o. unpinned_from pins (insert_default o pid m) pids) h.0.1
        ∙ unpinned_from_lem pins m pids h.1)

unpinned-IsIn :
    (pins : List ℕ) (m : Map ℕ ℕ) (x : ℕ) (pids : List ℕ)
    → IsIn x (unpinned pins m pids)
    → IsIn x pids × (get_or pins (frame_at x m) 0 ≡ 0)
unfolding unpinned
unpinned-IsIn pins m x [] b = absurd b
unpinned-IsIn pins m x (pid ∷ pids) h = elim (Bool-cases (get_or pins (frame_at pid m) 0 == 0)) [
  | inl free ↦ elim (subst (IsIn x) {y = pid ∷ unpinned pins m pids} (rw free) h) [
    | inl e ↦
        let zero_pins : get_or pins (frame_at pid m) 0 ≡ 0 = ground arith in
        (inl e, subst (λ q. get_or pins (frame_at q m) 0 ≡ 0) e zero_pins)
    | inr t ↦ let ih = unpinned-IsIn pins m x pids t in (inr ih.0, ih.1)
  ]
  | inr pinned ↦
      let ih =
        unpinned-IsIn pins m x pids (subst (IsIn x) {y = unpinned pins m pids} (rw pinned) h) in
      (inr ih.0, ih.1)
]

unpinned-nil :
    (pins : List ℕ) (m : Map ℕ ℕ) (pids : List ℕ)
    → unpinned pins m pids ≡ []
    → All (λ pid. 0 < get_or pins (frame_at pid m) 0) pids
unfolding unpinned
unpinned-nil pins m [] h = tt
unpinned-nil pins m (pid ∷ pids) h = elim (Bool-cases (get_or pins (frame_at pid m) 0 == 0)) [
  | inl free ↦ cc (rw free at h)
  | inr pinned ↦ (ground arith, unpinned-nil pins m pids (rw pinned at h))
]

choose-IsIn :
    (policies : Policies) (policy : Option (policies.Policy)) (observer : Option AccessObserver)
    (pid : ℕ) (pids : List ℕ)
    → IsIn (choose policies policy observer pid pids).0 (pid ∷ pids)
choose-IsIn policies none observer pid pids = inl refl
choose-IsIn policies (some p) observer pid pids = policies.choose_victim-IsIn observer p pid pids

module _ {policies : Policies} {P : Type 0} where
  -- The cache without a page, whose frame is written back to the file first.
  abbrev pub without_page :
      PageCache policies P → ℕ → ℕ → P → Option (policies.Policy) → PageCache policies P
  without_page c victim it page policy = record c {
    file = record c.file { pages = set c.file.pages victim page };
    page_map = erase ℕ_discrete victim c.page_map;
    lru_iters = erase ℕ_discrete victim c.lru_iters;
    lru_list = record c.lru_list { nodes = remove_at it c.lru_list.nodes };
    eviction_policy = policy;
  }

  pub record IsVictim (c : PageCache policies P) (victim frame it : ℕ) (page : P) : Type 0 where
    pub cached : Cached c victim frame
    pub not_pinned : get_or c.pin_counts frame 0 ≡ 0
    pub here : at? it c.lru_list.nodes ≡ some victim
    pub content : get_elem? c.pool frame ≡ some page

  pub data Evicts (c : PageCache policies P) : Type 0 where
    all_pinned :
        evict policies c ≡ thrown pool_full c
        → ((page_id frame : ℕ) → Cached c page_id frame → 0 < get_or c.pin_counts frame 0)
        → Evicts c
    evicts :
        (victim frame it : ℕ) (page : P) (policy : Option (policies.Policy))
        → IsVictim c victim frame it page
        → evict policies c ≡ ok frame (without_page c victim it page policy)
        → Evicts c

  record Removed (c : PageCache policies P) (victim : ℕ) (policy : Option (policies.Policy))
      : Type 0 where
    frame : ℕ
    it : ℕ
    page : P
    is_victim : IsVictim c victim frame it page
    removed :
        remove_victim policies c c.page_map (victim, policy)
        ≡ ok frame (without_page c victim it page policy)

  module _ {c : PageCache policies P} (v : IsValid c) where
    -- A page with a frame has a node in the list.
    pub node_of :
        (page_id frame : ℕ)
        → Cached c page_id frame
        → (it : ℕ) × (find ℕ_discrete page_id c.lru_iters ≡ some it)
          × (at? it c.lru_list.nodes ≡ some page_id)
          × (address_of ℕ_discrete (λ p. p) page_id c.lru_list.nodes ≡ some it)
    node_of page_id frame cached =
        let (it, listed) = v.listed page_id frame cached in
        let address = sym (v.shape.indexed page_id) ∙ listed in
        let (a, found, same) =
          at?-address_of ℕ_discrete (λ p. p) page_id c.lru_list.nodes v.shape.addresses address in
        (it, listed, found ∙ ap some same, address)

    remove_victim_lem :
        (victim : ℕ) (policy : Option (policies.Policy))
        → HasFrame c.page_map victim
        → get_or c.pin_counts (frame_at victim c.page_map) 0 ≡ 0
        → Removed c victim policy
    remove_victim_lem victim policy (frame, cached) free =
        let (page, content) = get_elem?_total c.pool frame (v.in_pool victim frame cached) in
        let (it, _, here, address) = node_of victim frame cached in
        let same_frame : frame_at victim c.page_map ≡ frame = rw cached in
        let stored = store_lem victim page v.file (v.on_file victim frame cached) in
        let pointer = get_page_lem victim v.file (v.on_file victim frame cached) in
        record {
          frame = frame;
          it = it;
          page = page;
          is_victim = record {
            cached = cached;
            not_pinned = subst (λ f. get_or c.pin_counts f 0 ≡ 0) same_frame free;
            here = here;
            content = content;
          };
          removed =
              ap₂ (remove_with policies c c.page_map victim policy (frame_at victim c.page_map))
                (ap (write_back c.file victim) (ap (get_elem? c.pool) same_frame ∙ content)
                  ∙ ap (λ q. write_back_to q c.file (some page)) pointer
                  ∙ sym (ap (λ q. MappedFile.store c.file q page) pointer)
                  ∙ stored)
                address
              ∙ ap (λ f. ok f (without_page c victim it page policy)) same_frame;
        }

    -- Every page of the list has a frame.
    listed-HasFrame :
        (pids : List ℕ)
        → ((x : ℕ) → IsIn x pids → IsIn x (values c.lru_list.nodes))
        → All (HasFrame c.page_map) pids
    listed-HasFrame [] sub = tt
    listed-HasFrame (pid ∷ pids) sub = (
      frame_of (address_of_total ℕ_discrete (λ p. p) pid c.lru_list.nodes (sub pid (inl refl))),
      listed-HasFrame pids (λ x m. sub x (inr m)),
    )
      where
        frame_of :
            ((it : ℕ) × (address_of ℕ_discrete (λ p. p) pid c.lru_list.nodes ≡ some it))
            → HasFrame c.page_map pid
        frame_of (it, address) = v.mapped pid it (v.shape.indexed pid ∙ address)

    -- On a valid cache `evict` either throws with nothing changed, and then each cached page is
    -- pinned, or writes an unpinned page back to its place in the file, takes it out of the cache,
    -- and returns its frame.
    pub evict-Evicts : Evicts c
    unfolding evict
    evict-Evicts = on_candidates (unpinned c.pin_counts c.page_map pids) refl
      where
        pids : List ℕ
        pids = reverse (values c.lru_list.nodes)

        candidates :
            unpinned_from c.pin_counts c.page_map pids
            ≡ (unpinned c.pin_counts c.page_map pids, c.page_map)
        candidates =
            unpinned_from_lem c.pin_counts c.page_map pids
              (listed-HasFrame pids (λ x m. IsIn-reverse x (values c.lru_list.nodes) m))

        on_candidates : (us : List ℕ) → unpinned c.pin_counts c.page_map pids ≡ us → Evicts c
        on_candidates [] e =
            all_pinned (ap (evict_from policies c) (candidates ∙ ap (λ u. (u, c.page_map)) e))
              (λ page_id frame cached.
                let (it, _, here, _) = node_of page_id frame cached in
                subst (λ f. 0 < get_or c.pin_counts f 0) (ap (λ o. Option.get_or o 0) cached)
                  (All-IsIn (λ pid. 0 < get_or c.pin_counts (frame_at pid c.page_map) 0) page_id
                    pids (unpinned-nil c.pin_counts c.page_map pids e)
                    (reverse-IsIn page_id (values c.lru_list.nodes)
                      (values-IsIn it page_id c.lru_list.nodes here))))
        on_candidates (pid ∷ rest) e =
            let (victim, policy) = choose policies c.eviction_policy c.observer pid rest in
            let offered = choose-IsIn policies c.eviction_policy c.observer pid rest in
            let (listed, free) =
              unpinned-IsIn c.pin_counts c.page_map victim pids
                (subst (IsIn victim) (sym e) offered) in
            let has =
              All-IsIn (HasFrame c.page_map) victim pids
                (listed-HasFrame pids (λ x m. IsIn-reverse x (values c.lru_list.nodes) m)) listed in
            let r = remove_victim_lem victim policy has free in
            evicts victim r.frame r.it r.page policy r.is_victim
              (ap (evict_from policies c) (candidates ∙ ap (λ u. (u, c.page_map)) e) ∙ r.removed)

-- ===== src/LruCache/Room.antt =====
-- The eviction of `put`: a full cache loses the entry that the policy's index names.
use adaptive_query_accelerat.Common.{
  ℕ, ◌+◌, ◌<◌, ◌≡◌, refl, sym, ◌∙◌, ap, Option, none, some, List, map, reverse, arith, length,
  get_elem?, IsIn-reverse, get_elem?-IsIn, get_elem?_total, length-reverse, length-map,
  get_elem?-map, reverse-map,
}
use adaptive_query_accelerat.Common.Maps
use adaptive_query_accelerat.Common.Linked.{Nodes, at?, remove_at, values, addresses}
use adaptive_query_accelerat.Common.Linked.Laws.{at?-IsIn, length-remove_at, values-remove_at}
use adaptive_query_accelerat.LruCache.{
  CacheEntry, LruCache, RecordEvictionPolicy, victim_index, evict,
}
use adaptive_query_accelerat.Common.Linked.Shape.{Shape, remove-Shape}
use adaptive_query_accelerat.LruCache.Valid.{IsValid}
use adaptive_query_accelerat.LruCache.Methods.{entries, without}

victim_index-lt :
    {K : Type 0} (policy : RecordEvictionPolicy K) (keys : List K)
    → 0 < length keys
    → victim_index policy keys < length keys
victim_index-lt none keys h = h
victim_index-lt (some choose) keys h = ground arith

module _ {K V : Type 0} (policy : RecordEvictionPolicy K) where
  -- The keys that the policy sees, the least recently used first.
  abbrev pub keys_lru : List (CacheEntry K V) → List K
  keys_lru es = reverse (map (λ e. e.key) es)

  -- The entry that the policy chooses.
  abbrev pub victim_of : List (CacheEntry K V) → Option (CacheEntry K V)
  victim_of es = get_elem? (reverse es) (victim_index policy (keys_lru es))

  -- The node at the policy's index.
  victim_node :
      (ns : Nodes (CacheEntry K V))
      → 0 < length ns
      → (n : ℕ × CacheEntry K V) × (get_elem?
            (reverse ns)
            (victim_index policy (keys_lru (values ns)))
          ≡ some n)
  victim_node ns h =
      let ks = keys_lru (values ns) in
      let size : length ks ≡ length ns =
        length-reverse (map (λ e. e.key) (values ns))
        ∙ length-map (λ e. e.key) (values ns)
        ∙ length-map (λ n. n.1) ns in
      get_elem?_total (reverse ns) (victim_index policy ks)
        (omega (arith, victim_index-lt policy ks, size, length-reverse ns))

module _ {K V : Type 0} (dec : Discrete K) (policy : RecordEvictionPolicy K) where
  -- What a full cache keeps: everything but the victim.
  abbrev pub drop_victim : Option (CacheEntry K V) → List (CacheEntry K V) → List (CacheEntry K V)
  drop_victim none es = es
  drop_victim (some e) es = without dec e.key es

  pub record Evicted (c c' : LruCache K V) : Type 0 where
    pub returned : evict dec policy c ≡ some c'
    pub kept : entries c' ≡ drop_victim (victim_of policy (entries c)) (entries c)
    pub shape : Shape dec (λ e. e.key) c'.list.fresh c'.index c'.list.nodes
    pub shorter : length c'.list.nodes + 1 ≡ length c.list.nodes
    pub still_absent : (k : K) → Maps.find dec k c.index ≡ none → Maps.find dec k c'.index ≡ none
    pub same : (c'.capacity ≡ c.capacity) × (c'.hits ≡ c.hits) × (c'.misses ≡ c.misses)

  -- A cache that is not empty evicts one entry.
  pub evict-Evicted :
      {c : LruCache K V}
      → IsValid dec c
      → 0 < length c.list.nodes
      → (c' : LruCache K V) × Evicted c c'
  unfolding evict
  evict-Evicted {c} v h =
      let ns = c.list.nodes in
      let idx = victim_index policy (keys_lru policy (entries c)) in
      let (n, chosen) = victim_node policy ns h in
      let there : at? n.0 ns ≡ some n.1 =
        at?-IsIn n.0 n.1 ns v.shape.addresses
          (IsIn-reverse n ns (get_elem?-IsIn (reverse ns) idx chosen)) in
      let address : get_elem? (reverse (addresses ns)) idx ≡ some n.0 =
        ap (λ l. get_elem? l idx) (reverse-map (λ m. m.0) ns)
        ∙ get_elem?-map (λ m. m.0) (reverse ns) idx chosen in
      let entry : victim_of policy (entries c) ≡ some n.1 =
        ap (λ l. get_elem? l idx) (reverse-map (λ m. m.1) ns)
        ∙ get_elem?-map (λ m. m.1) (reverse ns) idx chosen in
      (
        record c {
          index = Maps.erase dec n.1.key c.index;
          list = record c.list { nodes = remove_at n.0 ns };
        },
        record {
          returned = rw (address, there);
          kept =
              values-remove_at dec (λ e. e.key) n.0 ns v.shape.keys there
              ∙ sym (ap (λ o. drop_victim o (entries c)) entry);
          shape = remove-Shape dec (λ e. e.key) v.shape n.0 there;
          shorter = length-remove_at n.0 ns there;
          still_absent = λ k absent. Maps.erase-absent dec n.1.key k c.index absent;
          same = (refl, refl, refl);
        },
      )

-- ===== src/LruCache.antt =====
-- src/cache/lru_cache.h and lru_cache.cpp: the record cache. Keys and values are byte vectors that
-- the code only compares and copies, so both are type parameters. The mutex makes a method atomic.
-- `none` is undefined behaviour: the use of an iterator that points nowhere.
pub mod Valid
pub mod Methods
pub mod Room
pub mod Put
pub mod Facts
use mathlib.Core.Option
use adaptive_query_accelerat.Common.{
  ℕ, ◌+◌, Bool, Option, none, some, List, [], ◌∷◌, map, reverse, if◌then◌else◌, leb, u64, length,
  get_elem?, ◌==◌,
}
use adaptive_query_accelerat.Common.Maps.{Map, find, erase, assign}
use adaptive_query_accelerat.Common.Linked.{
  Linked, no_nodes, at?, remove_at, write_at, push_front, splice_front, values, addresses,
}

pub record CacheEntry (K V : Type 0) : Type 0 where
  pub key : K
  pub value : V

-- `list_` is in order of use, the latest first; `map_` holds iterators into it.
pub record LruCache (K V : Type 0) : Type 0 where
  pub capacity : ℕ
  pub hits : ℕ
  pub misses : ℕ
  pub list : Linked (CacheEntry K V)
  pub index : Map K ℕ

-- `RecordEvictionPolicy*`: an index into the keys, the least recently used first.
abbrev pub RecordEvictionPolicy : Type 0 → Type 0
RecordEvictionPolicy K = Option (List K → ℕ)

infixl 5 ◌>>=◌
abbrev pub ◌>>=◌ {ℓ κ} : {A : Type ℓ} {B : Type κ} → Option A → (A → Option B) → Option B
none >>= f = none
some a >>= f = f a

-- The policy's index, or 0 without a policy or out of range.
abbrev pub in_range : ℕ → ℕ → ℕ
in_range n i = if leb n i then 0 else i

abbrev pub victim_index : {K : Type 0} → RecordEvictionPolicy K → List K → ℕ
victim_index none keys = 0
victim_index (some choose) keys = in_range (length keys) (choose keys)

module _ {K V : Type 0} where
  unfoldable pub init : ℕ → LruCache K V
  init capacity = record { capacity = capacity; hits = 0; misses = 0; list = no_nodes; index = [] }

  -- `return it->second->value;`, with the list as the splice leaves it.
  abbrev pub get_from :
      LruCache K V → ℕ → Linked (CacheEntry K V) → Option (LruCache K V × Option V)
  get_from c it list = do
    entry ← at? it list.nodes
    some (record c { hits = u64 (c.hits + 1); list = list }, some entry.value)

  -- The branches of `get`, on what `map_.find(key)` gives.
  abbrev pub get_at : LruCache K V → Option ℕ → Option (LruCache K V × Option V)
  get_at c none = some (record c { misses = u64 (c.misses + 1) }, none)
  get_at c (some it) = do list ← splice_front it c.list; get_from c it list

  -- `it->second->value = value;`, with the list as the splice leaves it.
  abbrev pub write_value : LruCache K V → ℕ → V → Linked (CacheEntry K V) → Option (LruCache K V)
  write_value c it value list = do
    entry ← at? it list.nodes
    let nodes = write_at it (record entry { value = value }) list.nodes
    some (record c { list = record list { nodes = nodes } })

  -- The branch of `put` for a key that is present.
  abbrev pub overwrite : LruCache K V → ℕ → V → Option (LruCache K V)
  overwrite c it value = do list ← splice_front it c.list; write_value c it value list

module _ {K V : Type 0} (dec : Discrete K) where
  pub get : LruCache K V → K → Option (LruCache K V × Option V)
  unfolding find splice_front at?
  get c key = get_at c (find dec key c.index)

  -- `iters_lru` and `key_ptrs` go from the back of the list to its front.
  pub evict : RecordEvictionPolicy K → LruCache K V → Option (LruCache K V)
  unfolding erase at? remove_at
  evict policy c = do
    let iters_lru = reverse (addresses c.list.nodes)
    let key_ptrs = reverse (map (λ e. e.key) (values c.list.nodes))
    victim_it ← get_elem? iters_lru (victim_index policy key_ptrs)
    victim ← at? victim_it c.list.nodes
    some (record c {
      index = erase dec victim.key c.index;
      list = record c.list { nodes = remove_at victim_it c.list.nodes };
    })

  abbrev pub make_room : RecordEvictionPolicy K → LruCache K V → Option (LruCache K V)
  make_room policy c = if leb c.capacity (length c.list.nodes) then evict policy c else some c

  abbrev pub add_front : LruCache K V → K → V → LruCache K V
  add_front c key value = record c {
    list = push_front (record { key = key; value = value }) c.list;
    index = assign dec key c.list.fresh c.index;
  }

  abbrev pub put_at :
      RecordEvictionPolicy K → LruCache K V → K → V → Option ℕ → Option (LruCache K V)
  put_at policy c key value (some it) = overwrite c it value
  put_at policy c key value none = do c' ← make_room policy c; some (add_front c' key value)

  pub put : RecordEvictionPolicy K → LruCache K V → K → V → Option (LruCache K V)
  unfolding find splice_front write_at assign evict
  put policy c key value = put_at policy c key value (find dec key c.index)

abbrev pub get_hits : {K V : Type 0} → LruCache K V → ℕ
get_hits c = c.hits

abbrev pub get_misses : {K V : Type 0} → LruCache K V → ℕ
get_misses c = c.misses

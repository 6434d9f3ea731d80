-- ===== src/LruCache/Methods.antt =====
-- What `get` and `put` do to the entries in order of use, with the iterators and the index gone.
use mathlib.Core.Option
use adaptive_query_accelerat.Common.{
  ℕ, ◌+◌, ◌≡◌, inl, inr, refl, sym, ◌∙◌, ap, subst, Option, none, some, List, ◌∷◌, arith,
  Option-cases, u64,
}
use adaptive_query_accelerat.Common.Maps.{find}
use adaptive_query_accelerat.Common.Linked.{at?, remove_at, values}
use adaptive_query_accelerat.Common.Linked.Laws.{
  at?-head, splice_front_lem, at?-address_of, length-remove_at, values-remove_at, erase_key,
  element_of, element_of-none, element_of-at?,
}
use adaptive_query_accelerat.LruCache.{CacheEntry, LruCache, get, get_at, get_from, ◌>>=◌}
use adaptive_query_accelerat.Common.Linked.Shape.{move_front-Shape}
use adaptive_query_accelerat.LruCache.Valid.{IsValid}

-- The entries, the latest used first.
abbrev pub entries : {K V : Type 0} → LruCache K V → List (CacheEntry K V)
entries c = values c.list.nodes

module _ {K V : Type 0} (dec : Discrete K) where
  abbrev pub entry_of : K → List (CacheEntry K V) → Option (CacheEntry K V)
  entry_of = element_of dec (λ e. e.key)

  abbrev pub without : K → List (CacheEntry K V) → List (CacheEntry K V)
  without = erase_key dec (λ e. e.key)

  abbrev pub used_of : Option (CacheEntry K V) → K → List (CacheEntry K V) → List (CacheEntry K V)
  used_of none k es = es
  used_of (some e) k es = e ∷ without k es

  -- A use of the key moves its entry to the front.
  abbrev pub used : K → List (CacheEntry K V) → List (CacheEntry K V)
  used k es = used_of (entry_of k es) k es

  abbrev pub counters : LruCache K V → Option (CacheEntry K V) → ℕ × ℕ
  counters c none = (c.hits, u64 (c.misses + 1))
  counters c (some e) = (u64 (c.hits + 1), c.misses)

  module _ {c : LruCache K V} (v : IsValid dec c) (k : K) where
    open v use {shape}

    -- A key that the index lacks has no entry.
    pub entry_of_miss : find dec k c.index ≡ none → entry_of k (entries c) ≡ none
    entry_of_miss h = element_of-none dec (λ e. e.key) k c.list.nodes (sym (shape.indexed k) ∙ h)

    -- The iterator that the index gives for a key leads to its entry.
    pub entry_of_hit :
        {it : ℕ}
        → find dec k c.index ≡ some it
        → (e : CacheEntry K V) × (at? it c.list.nodes ≡ some e)
          × (e.key ≡ k)
          × (entry_of k (entries c) ≡ some e)
          × (values (remove_at it c.list.nodes) ≡ without k (entries c))
    entry_of_hit {it} h =
        let (e, found, same) =
          at?-address_of dec (λ e. e.key) k c.list.nodes shape.addresses
            (sym (shape.indexed k) ∙ h) in
        (
          e,
          found,
          same,
          subst (λ j. entry_of j (entries c) ≡ some e) same
              (element_of-at? dec (λ e. e.key) it c.list.nodes shape.keys found),
          subst (λ j. values (remove_at it c.list.nodes) ≡ without j (entries c)) same
              (values-remove_at dec (λ e. e.key) it c.list.nodes shape.keys found),
        )

  pub record Got (c : LruCache K V) (k : K) (c' : LruCache K V) : Type 0 where
    pub returned : get dec c k ≡ some (c', Option.map (λ e. e.value) (entry_of k (entries c)))
    pub moved : entries c' ≡ used k (entries c)
    pub counted : (c'.hits, c'.misses) ≡ counters c (entry_of k (entries c))
    pub valid : IsValid dec c'
    pub capacity : c'.capacity ≡ c.capacity

  -- On a valid cache `get` returns the value of the key's entry, if there is one, moves that entry
  -- to the front, counts a hit or a miss, and leaves a valid cache of the same capacity.
  pub get-Got : {c : LruCache K V} (k : K) → IsValid dec c → (c' : LruCache K V) × Got c k c'
  unfolding get
  get-Got {c} k v = elim (Option-cases (find dec k c.index)) [
    | inl miss ↦
        let absent = entry_of_miss v k miss in
        (
          record c { misses = u64 (c.misses + 1) },
          record {
            returned = rw (miss, absent);
            moved = sym (ap (λ o. used_of o k (entries c)) absent);
            counted = rw absent;
            valid = record { positive = v.positive; bounded = v.bounded; shape = v.shape };
            capacity = refl;
          },
        )
    | inr (it, hit) ↦
        let (e, found, same, present, rest) = entry_of_hit v k hit in
        let moved = record c.list { nodes = (it, e) ∷ remove_at it c.list.nodes } in
        (
          record c { hits = u64 (c.hits + 1); list = moved },
          record {
            returned =
                ap (get_at c) hit
                ∙ ap (λ l. l >>= get_from c it) (splice_front_lem it c.list found)
                ∙ rw (at?-head it e (remove_at it c.list.nodes), present);
            moved = ap (◌∷◌ e) rest ∙ sym (ap (λ o. used_of o k (entries c)) present);
            counted = rw present;
            valid = record {
              positive = v.positive;
              bounded = omega (arith, v, length-remove_at it c.list.nodes found);
              shape = move_front-Shape dec (λ e. e.key) v.shape found refl;
            };
            capacity = refl;
          },
        )
  ]

-- ===== src/LruCache/Put.antt =====
-- What `put` does to the entries in order of use.
use adaptive_query_accelerat.Common.{
  ℕ, ◌≡◌, refl, sym, ◌∙◌, ap, ap₂, Bool, Option, none, some, List, ◌∷◌, arith, length, leb,
  if◌then◌else◌, Bool-cases, Option-cases, inl, inr, length-map,
}
use adaptive_query_accelerat.Common.Maps
use adaptive_query_accelerat.Common.Linked.{remove_at}
use adaptive_query_accelerat.Common.Linked.Laws.{
  at?-head, write_at-head, splice_front_lem, length-remove_at,
}
use adaptive_query_accelerat.LruCache.{
  CacheEntry, LruCache, RecordEvictionPolicy, put, put_at, write_value, make_room, add_front, ◌>>=◌,
}
use adaptive_query_accelerat.Common.Linked.Shape.{move_front-Shape, push_front-Shape}
use adaptive_query_accelerat.LruCache.Valid.{IsValid}
use adaptive_query_accelerat.LruCache.Methods.{
  entries, entry_of, without, entry_of_miss, entry_of_hit,
}
use adaptive_query_accelerat.LruCache.Room.{victim_of, drop_victim, evict-Evicted}

module _ {K V : Type 0} (dec : Discrete K) (policy : RecordEvictionPolicy K) where
  -- The entries that stay behind the new one: all but the key's own, or all but the victim if the
  -- key is new and the cache is full.
  abbrev pub kept_of :
      ℕ → Option (CacheEntry K V) → K → List (CacheEntry K V) → List (CacheEntry K V)
  kept_of capacity (some e) k es = without dec k es
  kept_of capacity none k es =
      if leb capacity (length es) then drop_victim dec policy (victim_of policy es) es else es

  pub record Stored (c : LruCache K V) (k : K) (value : V) (c' : LruCache K V) : Type 0 where
    pub returned : put dec policy c k value ≡ some c'
    pub stored :
        entries c'
        ≡ record { key = k; value = value }
          ∷ kept_of c.capacity (entry_of dec k (entries c)) k (entries c)
    pub valid : IsValid dec c'
    pub same : (c'.capacity ≡ c.capacity) × (c'.hits ≡ c.hits) × (c'.misses ≡ c.misses)

  overwrite-Stored :
      {c : LruCache K V} (k : K) (value : V) {it : ℕ}
      → IsValid dec c
      → Maps.find dec k c.index ≡ some it
      → (c' : LruCache K V) × Stored c k value c'
  unfolding put
  overwrite-Stored {c} k value {it} v hit =
      let (e, found, same, present, rest) = entry_of_hit dec v k hit in
      let b : CacheEntry K V = record e { value = value } in
      let fresh_entry : CacheEntry K V = record { key = k; value = value } in
      let here : b ≡ fresh_entry = λ i. record { key = same i; value = value } in
      (
        record c { list = record c.list { nodes = (it, b) ∷ remove_at it c.list.nodes } },
        record {
          returned =
              ap (put_at dec policy c k value) hit
              ∙ ap (λ l. l >>= write_value c it value) (splice_front_lem it c.list found)
              ∙ rw (at?-head it e (remove_at it c.list.nodes))
                  (rw (write_at-head it e b (remove_at it c.list.nodes)));
          stored =
              ap₂ ◌∷◌ here rest
              ∙ sym (ap (λ o. fresh_entry ∷ kept_of c.capacity o k (entries c)) present);
          valid = record {
            positive = v.positive;
            bounded = omega (arith, v, length-remove_at it c.list.nodes found);
            shape = move_front-Shape dec (λ e. e.key) v.shape found refl;
          };
          same = (refl, refl, refl);
        },
      )

  insert-Stored :
      {c : LruCache K V} (k : K) (value : V)
      → IsValid dec c
      → Maps.find dec k c.index ≡ none
      → (c' : LruCache K V) × Stored c k value c'
  unfolding put
  insert-Stored {c} k value v miss =
      let absent = entry_of_miss dec v k miss in
      let size : length (entries c) ≡ length c.list.nodes = length-map (λ n. n.1) c.list.nodes in
      elim (Bool-cases (leb c.capacity (length c.list.nodes))) [
        | inl full ↦
            let (d, ev) = evict-Evicted dec policy v (ground (arith, v)) in
            let roomed : make_room dec policy c ≡ some d = rw full ev.returned in
            (
              add_front dec d k value,
              record {
                returned =
                    ap (put_at dec policy c k value) miss
                    ∙ ap (λ o. o >>= λ c'. some (add_front dec c' k value)) roomed;
                stored =
                    ap (◌∷◌ entry) (ev.kept ∙ sym (keeps absent (ap (leb c.capacity) size ∙ full)));
                valid = record {
                  positive = ground (arith, v, ev);
                  bounded = ground (arith, v, ev);
                  shape =
                      push_front-Shape dec (λ e. e.key) ev.shape (record { key = k; value = value })
                        (ev.still_absent k miss);
                };
                same = ev.same;
              },
            )
        | inr room ↦ (
          add_front dec c k value,
          record {
            returned = ap (put_at dec policy c k value) miss ∙ rw room;
            stored = ap (◌∷◌ entry) (sym (keeps absent (ap (leb c.capacity) size ∙ room)));
            valid = record {
              positive = v.positive;
              bounded = ground (arith, v);
              shape =
                  push_front-Shape dec (λ e. e.key) v.shape (record { key = k; value = value })
                    miss;
            };
            same = (refl, refl, refl);
          },
        )
      ]
    where
      entry : CacheEntry K V
      entry = record { key = k; value = value }

      keeps :
          {b : Bool}
          → entry_of dec k (entries c) ≡ none
          → leb c.capacity (length (entries c)) ≡ b
          → kept_of c.capacity (entry_of dec k (entries c)) k (entries c) ≡ (
              if b
              then drop_victim dec policy (victim_of policy (entries c)) (entries c)
              else entries c)
      keeps absent test =
          ap (λ o. kept_of c.capacity o k (entries c)) absent
          ∙ ap
              (λ b.
                if b
                then drop_victim dec policy (victim_of policy (entries c)) (entries c)
                else entries c)
              test

  -- On a valid cache `put` succeeds, whatever the policy: the entry comes to the front with the new
  -- value, the others keep their order, a new key in a full cache costs the victim its entry, the
  -- counters do not change, and the cache stays valid with its capacity.
  pub put-Stored :
      {c : LruCache K V} (k : K) (value : V)
      → IsValid dec c
      → (c' : LruCache K V) × Stored c k value c'
  put-Stored {c} k value v = elim (Option-cases (Maps.find dec k c.index)) [
    | inl miss ↦ insert-Stored k value v miss
    | inr (it, hit) ↦ overwrite-Stored k value v hit
  ]

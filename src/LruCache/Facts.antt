-- ===== src/LruCache/Facts.antt =====
-- What holds of every entry of a cache, and how `get` and `put` carry it on.
use mathlib.Core.Option
use adaptive_query_accelerat.Common.{
  ℕ, ◌≡◌, ◌≢◌, refl, sym, ◌∙◌, ap, subst, Option, none, some, Option-cases, inl, inr, List, [], ◌∷◌,
  All, if_pos, if_neg, arith, leb, length, Bool-cases,
}
use adaptive_query_accelerat.Common.Linked.{Nodes, values}
use adaptive_query_accelerat.Common.Linked.Laws.{DistinctKeys, Lacks, element_of, erase_key}
use adaptive_query_accelerat.LruCache.{CacheEntry, LruCache, RecordEvictionPolicy, get, put}
use adaptive_query_accelerat.LruCache.Valid.{IsValid}
use adaptive_query_accelerat.LruCache.Methods.{entries, entry_of, without, used_of, get-Got}
use adaptive_query_accelerat.LruCache.Room.{victim_of, drop_victim}
use adaptive_query_accelerat.LruCache.Put.{kept_of, put-Stored}

module _ {K V : Type 0} (dec : Discrete K) where
  without-All :
      (P : CacheEntry K V → Type 0) (k : K) (es : List (CacheEntry K V))
      → All P es
      → All P (without dec k es)
  unfolding erase_key
  without-All P k [] h = tt
  without-All P k (e ∷ es) h = elim (dec e.key k) [
    | yes p ↦ rw (if_pos (dec e.key k) p) h.1
    | no p ↦ rw (if_neg (dec e.key k) p) (h.0, without-All P k es h.1)
  ]

  entry_of-All :
      (P : CacheEntry K V → Type 0) (k : K) (es : List (CacheEntry K V)) (e : CacheEntry K V)
      → All P es
      → entry_of dec k es ≡ some e
      → P e × (e.key ≡ k)
  unfolding element_of
  entry_of-All P k [] e h found = cc
  entry_of-All P k (d ∷ es) e h found = elim (dec d.key k) [
    | yes p ↦
        let same : d ≡ e = (let there = rw (if_pos (dec d.key k) p) at found in ground arith) in
        subst (λ x. P x × (x.key ≡ k)) same (h.0, p)
    | no p ↦ entry_of-All P k es e h.1 (rw (if_neg (dec d.key k) p) at found)
  ]

  entry_of-first :
      (e : CacheEntry K V) (es : List (CacheEntry K V)) → entry_of dec e.key (e ∷ es) ≡ some e
  unfolding element_of
  entry_of-first e es = if_pos (dec e.key e.key) refl (some e) (entry_of dec e.key es)

  used_of-All :
      (P : CacheEntry K V → Type 0) (k : K) (es : List (CacheEntry K V))
      (o : Option (CacheEntry K V))
      → entry_of dec k es ≡ o
      → All P es
      → All P (used_of dec o k es)
  used_of-All P k es none found h = h
  used_of-All P k es (some e) found h = ((entry_of-All P k es e h found).0, without-All P k es h)

  -- A `get` whose result, if any, comes from an entry of the key of which P holds.
  pub record Gives (P : CacheEntry K V → Type 0) (c : LruCache K V) (k : K) : Type 0 where
    pub after : LruCache K V
    pub result : Option V
    pub returned : get dec c k ≡ some (after, result)
    pub valid : IsValid dec after
    pub facts : All P (entries after)
    pub source :
        (value : V)
        → result ≡ some value
        → (e : CacheEntry K V) × P e × (e.key ≡ k) × (e.value ≡ value)

  pub get-Gives :
      (P : CacheEntry K V → Type 0) (c : LruCache K V) (k : K)
      → IsValid dec c
      → All P (entries c)
      → Gives P c k
  get-Gives P c k v h =
      let (c', got) = get-Got dec k v in
      record {
        after = c';
        result = Option.map (λ e. e.value) (entry_of dec k (entries c));
        returned = got.returned;
        valid = got.valid;
        facts =
            subst (All P) (sym got.moved)
              (used_of-All P k (entries c) (entry_of dec k (entries c)) refl h);
        source = λ value found. elim (Option-cases (entry_of dec k (entries c))) [
          | inl absent ↦ let gone : none ≡ some value = rw absent at found in cc
          | inr (e, present) ↦
              let (holds, same) = entry_of-All P k (entries c) e h present in
              let its : some e.value ≡ some value = rw present at found in
              (e, holds, same, ground arith)
        ];
      }

  -- No entry behind the first has its key.
  abbrev FirstIsAlone : List (CacheEntry K V) → Type 0
  FirstIsAlone [] = Unit
  FirstIsAlone (a ∷ rest) = All (λ e. e.key ≢ a.key) rest

  values-Lacks :
      (k : K) (ns : Nodes (CacheEntry K V))
      → Lacks dec (λ e. e.key) k ns
      → All (λ e. e.key ≢ k) (values ns)
  values-Lacks k [] h = tt
  values-Lacks k ((i, b) ∷ ns) h = (h.0, values-Lacks k ns h.1)

  values-FirstIsAlone :
      (ns : Nodes (CacheEntry K V)) → DistinctKeys dec (λ e. e.key) ns → FirstIsAlone (values ns)
  values-FirstIsAlone [] d = tt
  values-FirstIsAlone ((i, b) ∷ ns) d = values-Lacks b.key ns d.0

  module _ (policy : RecordEvictionPolicy K) where
    drop_victim-All :
        (P : CacheEntry K V → Type 0) (o : Option (CacheEntry K V)) (es : List (CacheEntry K V))
        → All P es
        → All P (drop_victim dec policy o es)
    drop_victim-All P none es h = h
    drop_victim-All P (some e) es h = without-All P e.key es h

    kept_of-All :
        (P : CacheEntry K V → Type 0) (capacity : ℕ) (o : Option (CacheEntry K V)) (k : K)
        (es : List (CacheEntry K V))
        → All P es
        → All P (kept_of dec policy capacity o k es)
    kept_of-All P capacity (some e) k es h = without-All P k es h
    kept_of-All P capacity none k es h = elim (Bool-cases (leb capacity (length es))) [
      | inl full ↦ rw full (drop_victim-All P (victim_of policy es) es h)
      | inr room ↦ rw room h
    ]

    -- What holds of every entry under another key, and of the new entry, holds after a `put`.
    pub put-All :
        (P Q : CacheEntry K V → Type 0) (c : LruCache K V) (k : K) (value : V)
        → IsValid dec c
        → All P (entries c)
        → ((e : CacheEntry K V) → e.key ≢ k → P e → Q e)
        → Q (record { key = k; value = value })
        → (c' : LruCache K V) × (put dec policy c k value ≡ some c')
          × IsValid dec c'
          × All Q (entries c')
          × (entry_of dec k (entries c') ≡ some (record { key = k; value = value }))
    put-All P Q c k value v h others new =
        let (c', s) = put-Stored dec policy k value v in
        let rest = kept_of dec policy c.capacity (entry_of dec k (entries c)) k (entries c) in
        let old = kept_of-All P c.capacity (entry_of dec k (entries c)) k (entries c) h in
        let alone =
          subst FirstIsAlone s.stored (values-FirstIsAlone c'.list.nodes s.valid.shape.keys) in
        (
          c',
          s.returned,
          s.valid,
          subst (All Q) (sym s.stored) (new, carry rest alone old),
          ap (entry_of dec k) s.stored ∙ entry_of-first (record { key = k; value = value }) rest,
        )
      where
        carry : (es : List (CacheEntry K V)) → All (λ e. e.key ≢ k) es → All P es → All Q es
        carry [] alone old = tt
        carry (e ∷ es) alone old = (others e alone.0 old.0, carry es alone.1 old.1)

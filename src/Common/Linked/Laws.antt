-- ===== src/Common/Linked/Laws.antt =====
-- Lists with distinct addresses and distinct keys: finding a node by key and by address agree.
use Prim.Native.Nat.{ℕ, ◌+◌}
use mathlib.Core.Path.{◌≡◌, refl, ◌∙◌, ap, sym, subst, subst₂}
use mathlib.Core.Logic.{ite, if_pos, if_neg, ◌≢◌, inl, inr}
use mathlib.Core.Option.{Option, none, some}
use mathlib.Core.List.{List, [], ◌∷◌}
use native.Mathlib.Decide.{ℕ_discrete}
use native.Mathlib.Omega.{arith}
use adaptive_query_accelerat.Common.Lists.{All, IsIn, length}
use adaptive_query_accelerat.Common.Linked.{
  Nodes, Linked, at?, remove_at, write_at, splice_front, values,
}

module _ {A : Type 0} where
  -- No node has the address.
  abbrev pub Avoids : ℕ → Nodes A → Type 0
  Avoids i = All (λ n. n.0 ≢ i)

  abbrev pub DistinctAddresses : Nodes A → Type 0
  DistinctAddresses [] = Unit
  DistinctAddresses (n ∷ ns) = Avoids n.0 ns × DistinctAddresses ns

  pub remove_at-All :
      (P : ℕ × A → Type 0) (it : ℕ) (ns : Nodes A) → All P ns → All P (remove_at it ns)
  unfolding remove_at
  remove_at-All P it [] h = h
  remove_at-All P it ((i, a) ∷ ns) h = elim (ℕ_discrete i it) [
    | yes p ↦ rw (if_pos _ p) h.1
    | no p ↦ rw (if_neg _ p) (h.0, remove_at-All P it ns h.1)
  ]

  pub remove_at-DistinctAddresses :
      (it : ℕ) (ns : Nodes A) → DistinctAddresses ns → DistinctAddresses (remove_at it ns)
  unfolding remove_at
  remove_at-DistinctAddresses it [] h = h
  remove_at-DistinctAddresses it ((i, a) ∷ ns) h = elim (ℕ_discrete i it) [
    | yes p ↦ rw (if_pos _ p) h.1
    | no p ↦
        rw (if_neg _ p)
          (remove_at-All (λ n. n.0 ≢ i) it ns h.0, remove_at-DistinctAddresses it ns h.1)
  ]

  pub at?-All :
      (P : ℕ × A → Type 0) (it : ℕ) (ns : Nodes A) {a : A}
      → All P ns
      → at? it ns ≡ some a
      → P (it, a)
  unfolding at?
  at?-All P it [] h e = cc
  at?-All P it ((i, b) ∷ ns) {a} h e = elim (ℕ_discrete i it) [
    | yes p ↦ let same : b ≡ a = ground arith in subst₂ (λ x y. P (x, y)) p same h.0
    | no p ↦ at?-All P it ns h.1 (rw (if_neg _ p) at e)
  ]

  at?-Avoids : (it : ℕ) (ns : Nodes A) → Avoids it ns → at? it ns ≡ none
  unfolding at?
  at?-Avoids it [] h = refl
  at?-Avoids it ((i, a) ∷ ns) h = rw (if_neg (ℕ_discrete i it) h.0) (at?-Avoids it ns h.1)

  -- The address that is taken out is gone.
  pub remove_at-Avoids :
      (it : ℕ) (ns : Nodes A) → DistinctAddresses ns → Avoids it (remove_at it ns)
  unfolding remove_at
  remove_at-Avoids it [] h = tt
  remove_at-Avoids it ((i, a) ∷ ns) h = elim (ℕ_discrete i it) [
    | yes p ↦ rw (if_pos _ p) (subst (λ j. Avoids j ns) p h.0)
    | no p ↦ rw (if_neg _ p) (p, remove_at-Avoids it ns h.1)
  ]

  pub length-remove_at :
      (it : ℕ) (ns : Nodes A) {a : A}
      → at? it ns ≡ some a
      → length (remove_at it ns) + 1 ≡ length ns
  unfolding remove_at at?
  length-remove_at it [] h = cc
  length-remove_at it ((i, b) ∷ ns) h = elim (ℕ_discrete i it) [
    | yes p ↦ rw (if_pos _ p) (omega arith)
    | no p ↦ rw (if_neg _ p) (omega (arith, length-remove_at it ns (rw (if_neg _ p) at h)))
  ]

module _ {A : Type 0} where
  pub at?-head : (it : ℕ) (a : A) (ns : Nodes A) → at? it ((it, a) ∷ ns) ≡ some a
  unfolding at?
  at?-head it a ns = if_pos (ℕ_discrete it it) refl (some a) (at? it ns)

  pub write_at-head :
      (it : ℕ) (a b : A) (ns : Nodes A) → write_at it b ((it, a) ∷ ns) ≡ (it, b) ∷ ns
  unfolding write_at
  write_at-head it a b ns =
      if_pos (ℕ_discrete it it) refl ((it, b) ∷ ns) ((it, a) ∷ write_at it b ns)

  -- A node of the list stands at its address.
  pub at?-IsIn :
      (it : ℕ) (a : A) (ns : Nodes A) → DistinctAddresses ns → IsIn (it, a) ns → at? it ns ≡ some a
  unfolding at?
  at?-IsIn it a [] d m = absurd m
  at?-IsIn it a ((i, b) ∷ ns) d (inl e) =
      if_pos (ℕ_discrete i it) (ap (λ n. n.0) e) (some b) (at? it ns) ∙ ap (λ n. some n.1) e
  at?-IsIn it a ((i, b) ∷ ns) d (inr m) =
      let ne : i ≢ it = λ e.
        cc (at?-Avoids i ns d.0, subst (λ j. at? j ns ≡ some a) (sym e) (at?-IsIn it a ns d.1 m)) in
      if_neg (ℕ_discrete i it) ne (some b) (at? it ns) ∙ at?-IsIn it a ns d.1 m

  pub values-IsIn : (it : ℕ) (a : A) (ns : Nodes A) → at? it ns ≡ some a → IsIn a (values ns)
  unfolding at?
  values-IsIn it a [] h = cc
  values-IsIn it a ((i, b) ∷ ns) h = elim (ℕ_discrete i it) [
    | yes p ↦ inl (ground arith)
    | no p ↦ inr (values-IsIn it a ns (rw (if_neg _ p) at h))
  ]

  -- An iterator that points to an element moves it to the front.
  pub splice_front_lem :
      (it : ℕ) (l : Linked A) {a : A}
      → at? it l.nodes ≡ some a
      → splice_front it l ≡ some (record l { nodes = (it, a) ∷ remove_at it l.nodes })
  unfolding splice_front
  splice_front_lem it l found = rw found

module _ {A K : Type 0} (dec : Discrete K) (key : A → K) where
  abbrev pub Lacks : K → Nodes A → Type 0
  Lacks k = All (λ n. key n.1 ≢ k)

  abbrev pub DistinctKeys : Nodes A → Type 0
  DistinctKeys [] = Unit
  DistinctKeys (n ∷ ns) = Lacks (key n.1) ns × DistinctKeys ns

  -- The address of the node with the key.
  unfoldable pub address_of : K → Nodes A → Option ℕ
  address_of k [] = none
  address_of k ((i, a) ∷ ns) = ite (dec (key a) k) (some i) (address_of k ns)

  pub remove_at-DistinctKeys :
      (it : ℕ) (ns : Nodes A) → DistinctKeys ns → DistinctKeys (remove_at it ns)
  unfolding remove_at
  remove_at-DistinctKeys it [] h = h
  remove_at-DistinctKeys it ((i, a) ∷ ns) h = elim (ℕ_discrete i it) [
    | yes p ↦ rw (if_pos _ p) h.1
    | no p ↦
        rw (if_neg _ p)
          (remove_at-All (λ n. key n.1 ≢ key a) it ns h.0, remove_at-DistinctKeys it ns h.1)
  ]

  pub address_of-Lacks : (k : K) (ns : Nodes A) → Lacks k ns → address_of k ns ≡ none
  unfolding address_of
  address_of-Lacks k [] h = refl
  address_of-Lacks k ((i, a) ∷ ns) h = rw (if_neg (dec (key a) k) h.0) (address_of-Lacks k ns h.1)

  pub Lacks-of_none : (k : K) (ns : Nodes A) → address_of k ns ≡ none → Lacks k ns
  unfolding address_of
  Lacks-of_none k [] h = tt
  Lacks-of_none k ((i, a) ∷ ns) h = elim (dec (key a) k) [
    | yes p ↦ absurd (cc (if_pos (dec (key a) k) p (some i) (address_of k ns)))
    | no p ↦ (p, Lacks-of_none k ns (rw (if_neg _ p) at h))
  ]

  -- The address that a key has leads to an element with the key.
  pub at?-address_of :
      (k : K) (ns : Nodes A) {i : ℕ}
      → DistinctAddresses ns
      → address_of k ns ≡ some i
      → (a : A) × (at? i ns ≡ some a) × (key a ≡ k)
  unfolding address_of at?
  at?-address_of k [] d h = cc
  at?-address_of k ((j, a) ∷ ns) {i} d h = elim (dec (key a) k) [
    | yes p ↦ let e : j ≡ i = ground arith in (a, if_pos (ℕ_discrete j i) e (some a) (at? i ns), p)
    | no p ↦
        let (b, found, same) = at?-address_of k ns d.1 (rw (if_neg _ p) at h) in
        let ne : j ≢ i = λ e. cc (found, at?-Avoids i ns (subst (λ x. Avoids x ns) e d.0)) in
        (b, rw (if_neg (ℕ_discrete j i) ne) found, same)
  ]

  -- An element's key has the element's address.
  pub address_of-at? :
      (it : ℕ) (ns : Nodes A) {a : A}
      → DistinctKeys ns
      → at? it ns ≡ some a
      → address_of (key a) ns ≡ some it
  unfolding address_of at?
  address_of-at? it [] d h = cc
  address_of-at? it ((j, b) ∷ ns) {a} d h = elim (ℕ_discrete j it) [
    | yes p ↦
        let same : b ≡ a = ground arith in
        rw (if_pos (dec (key b) (key a)) (ap key same)) (ap some p)
    | no p ↦
        let there : at? it ns ≡ some a = rw (if_neg _ p) at h in
        let other : key a ≢ key b = at?-All (λ n. key n.1 ≢ key b) it ns d.0 there in
        rw (if_neg (dec (key b) (key a)) (λ e. other (sym e))) (address_of-at? it ns d.1 there)
  ]

  -- Without a node, its key has no address and every other key has the address that it had.
  pub address_of-remove_at :
      (it : ℕ) (k : K) (ns : Nodes A) {a : A}
      → DistinctKeys ns
      → at? it ns ≡ some a
      → address_of k (remove_at it ns) ≡ ite (dec (key a) k) none (address_of k ns)
  unfolding address_of at? remove_at
  address_of-remove_at it k [] d h = cc
  address_of-remove_at it k ((j, b) ∷ ns) {a} d h = elim (ℕ_discrete j it) [
    | yes p ↦
        let same : b ≡ a = ground arith in
        let gone = address_of-Lacks (key b) ns d.0 in ground arith
    | no p ↦
        let ih = address_of-remove_at it k ns d.1 (rw (if_neg _ p) at h) in
        let other : key a ≢ key b =
          at?-All (λ n. key n.1 ≢ key b) it ns d.0 (rw (if_neg _ p) at h) in
        ground (arith, ih)
  ]

  -- Erases the first element with the key.
  unfoldable pub erase_key : K → List A → List A
  erase_key k [] = []
  erase_key k (a ∷ rest) = ite (dec (key a) k) rest (a ∷ erase_key k rest)

  -- To take a node out by its address is to take its element out by its key.
  pub values-remove_at :
      (it : ℕ) (ns : Nodes A) {a : A}
      → DistinctKeys ns
      → at? it ns ≡ some a
      → values (remove_at it ns) ≡ erase_key (key a) (values ns)
  unfolding at? remove_at erase_key
  values-remove_at it [] d h = cc
  values-remove_at it ((j, b) ∷ ns) {a} d h = elim (ℕ_discrete j it) [
    | yes p ↦ let same : b ≡ a = ground arith in ground arith
    | no p ↦
        let there : at? it ns ≡ some a = rw (if_neg _ p) at h in
        let other : key a ≢ key b = at?-All (λ n. key n.1 ≢ key b) it ns d.0 there in
        ground (arith, values-remove_at it ns d.1 there)
  ]

  -- Without a node, no node has its key.
  pub Lacks-remove_at :
      (it : ℕ) (ns : Nodes A) {a : A}
      → DistinctKeys ns
      → at? it ns ≡ some a
      → Lacks (key a) (remove_at it ns)
  Lacks-remove_at it ns {a} d h = Lacks-of_none (key a) (remove_at it ns) (
      address_of-remove_at it (key a) ns d h
      ∙ if_pos (dec (key a) (key a)) refl none (address_of (key a) ns))

  -- The first element with the key.
  unfoldable pub element_of : K → List A → Option A
  element_of k [] = none
  element_of k (a ∷ rest) = ite (dec (key a) k) (some a) (element_of k rest)

  -- A key without an address has no element.
  pub element_of-none :
      (k : K) (ns : Nodes A) → address_of k ns ≡ none → element_of k (values ns) ≡ none
  unfolding address_of element_of
  element_of-none k [] h = refl
  element_of-none k ((i, a) ∷ ns) h = elim (dec (key a) k) [
    | yes p ↦ absurd (cc (if_pos (dec (key a) k) p (some i) (address_of k ns)))
    | no p ↦ rw (if_neg _ p) (element_of-none k ns (rw (if_neg _ p) at h))
  ]

  -- What stands at an address is the element of its key.
  pub element_of-at? :
      (it : ℕ) (ns : Nodes A) {a : A}
      → DistinctKeys ns
      → at? it ns ≡ some a
      → element_of (key a) (values ns) ≡ some a
  unfolding element_of at?
  element_of-at? it [] d h = cc
  element_of-at? it ((j, b) ∷ ns) {a} d h = elim (ℕ_discrete j it) [
    | yes p ↦
        let same : b ≡ a = ground arith in
        rw (if_pos (dec (key b) (key a)) (ap key same)) (ap some same)
    | no p ↦
        let there : at? it ns ≡ some a = rw (if_neg _ p) at h in
        let other : key a ≢ key b = at?-All (λ n. key n.1 ≢ key b) it ns d.0 there in
        rw (if_neg (dec (key b) (key a)) (λ e. other (sym e))) (element_of-at? it ns d.1 there)
  ]

  -- Every element's key has an address.
  pub address_of_total :
      (a : A) (ns : Nodes A) → IsIn a (values ns) → (it : ℕ) × (address_of (key a) ns ≡ some it)
  unfolding address_of
  address_of_total a [] m = absurd m
  address_of_total a ((i, b) ∷ ns) m = elim (dec (key b) (key a)) [
    | yes p ↦ (i, if_pos _ p (some i) (address_of (key a) ns))
    | no p ↦ elim m [
      | inl e ↦ absurd (p (ap key e))
      | inr t ↦
          let (it, found) = address_of_total a ns t in
          (it, if_neg (dec (key b) (key a)) p (some i) (address_of (key a) ns) ∙ found)
    ]
  ]

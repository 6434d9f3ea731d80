-- ===== src/BPlusTree/Leaf.antt =====
-- Insertion into a leaf keeps the array sorted, and places the pair where the search said.
use native.Mathlib.Nat.{zero-add}
use adaptive_query_accelerat.Common.Arrays.{Array, write, write_self, write_ne}
use adaptive_query_accelerat.Common.{
  ℕ, zero, suc, ◌+◌, ◌≤◌, ◌<◌, ◌≡◌, inl, inr, refl, ap, ◌∙◌, subst, Bool, true, false, arith, ltb,
  leb, Bool-cases, ℕ_discrete,
}
use adaptive_query_accelerat.BPlusTree.{
  LeafPage, pos, minus_one, shift, partition_point, key_index, is_duplicate, insert, increase_size,
}
use adaptive_query_accelerat.BPlusTree.Search.{IsBorder, partition_point-IsBorder}

module _ {K V : Type 0} (comparator : K → K → Bool) where
  shift_below : (index i j : ℕ) (a : Array (K × V)) → j ≤ index → shift comparator index i a j ≡ a j
  unfolding shift
  shift_below index zero j a h = refl
  shift_below index (suc i) j a h = elim (Bool-cases (ltb index (suc i))) [
    | inr stopped ↦ rw stopped
    | inl moves ↦ rw moves (
        shift_below index i j (write (suc i) (a i) a) h
        ∙ write_ne (suc i) j (a i) a (λ e. ground arith))
  ]

  shift_above : (index i j : ℕ) (a : Array (K × V)) → i < j → shift comparator index i a j ≡ a j
  unfolding shift
  shift_above index zero j a h = refl
  shift_above index (suc i) j a h = elim (Bool-cases (ltb index (suc i))) [
    | inr stopped ↦ rw stopped
    | inl moves ↦ rw moves (
        shift_above index i j (write (suc i) (a i) a) (omega arith)
        ∙ write_ne (suc i) j (a i) a (λ e. omega arith))
  ]

  shift_moved :
      (index i j : ℕ) (a : Array (K × V))
      → index ≤ j
      → j < i
      → shift comparator index i a (suc j) ≡ a j
  unfolding shift
  shift_moved index zero j a h below = absurd (omega arith)
  shift_moved index (suc i) j a h below =
      let moves : ltb index (suc i) ≡ true = ground arith in
      rw moves (elim (ℕ_discrete i j) [
        | yes same ↦
            shift_above index i (suc j) (write (suc i) (a i) a) (omega arith)
            ∙ subst (λ x. write (suc i) (a i) a (suc x) ≡ a x) same (write_self (suc i) (a i) a)
        | no other ↦
            shift_moved index i j (write (suc i) (a i) a) h (omega arith)
            ∙ write_ne (suc i) j (a i) a (λ e. omega arith)
      ])

  abbrev pub key_at : LeafPage K V → ℕ → K
  key_at p i = (p.array i).0

  abbrev pub IsSorted : LeafPage K V → Type 0
  IsSorted p = (i j : ℕ) → i < j → j < p.header.size → comparator (key_at p i) (key_at p j) ≡ true

  -- `p'` is `p` with the pair at the index, and everything from there on moved up by one.
  pub record Placed (key : K) (value : V) (index : ℕ) (p p' : LeafPage K V) : Type 0 where
    pub in_range : index ≤ p.header.size
    pub header : p'.header ≡ increase_size 1 p.header
    pub before : (i : ℕ) → i < index → p'.array i ≡ p.array i
    pub here : p'.array index ≡ (key, value)
    pub moved : (i : ℕ) → index ≤ i → i < p.header.size → p'.array (suc i) ≡ p.array i
    pub beyond : (i : ℕ) → p.header.size < i → p'.array i ≡ p.array i

  pub data Inserts (key : K) (value : V) (p : LeafPage K V) : Type 0 where
    full :
        p.header.max_size ≤ p.header.size
        → insert comparator key value p ≡ (minus_one, p)
        → Inserts key value p
    duplicate :
        (i : ℕ)
        → i < p.header.size
        → comparator (key_at p i) key ≡ false
        → comparator key (key_at p i) ≡ false
        → insert comparator key value p ≡ (minus_one, p)
        → Inserts key value p
    inserted :
        (index : ℕ) (p' : LeafPage K V)
        → p.header.size < p.header.max_size
        → insert comparator key value p ≡ (pos (suc p.header.size), p')
        → Placed key value index p p'
        → IsSorted p'
        → Inserts key value p

  module _ (key : K) (value : V) (p : LeafPage K V) where
    abbrev placed_at : ℕ → LeafPage K V
    placed_at index = record p {
      header = increase_size 1 p.header;
      array = write index (key, value) (shift comparator index p.header.size p.array);
    }

    placed_at-Placed :
        (index : ℕ) → index ≤ p.header.size → Placed key value index p (placed_at index)
    placed_at-Placed index h = record {
      in_range = h;
      header = refl;
      before = λ i b.
          write_ne index i (key, value) shifted (λ e. omega arith)
          ∙ shift_below index n i p.array (omega arith);
      here = write_self index (key, value) shifted;
      moved = λ i a b.
          write_ne index (suc i) (key, value) shifted (λ e. omega arith)
          ∙ shift_moved index n i p.array a b;
      beyond = λ i b.
          write_ne index i (key, value) shifted (λ e. omega arith)
          ∙ shift_above index n i p.array b;
    }
      where
        n : ℕ
        n = p.header.size

        shifted : Array (K × V)
        shifted = shift comparator index n p.array

    -- What stands at an index of the page after the insertion.
    data Slot (index : ℕ) (p' : LeafPage K V) (i : ℕ) : Type 0 where
      before_it : i < index → key_at p' i ≡ key_at p i → Slot index p' i
      at_it : i ≡ index → key_at p' i ≡ key → Slot index p' i
      behind_it :
          (m : ℕ)
          → i ≡ suc m
          → index ≤ m
          → m < p.header.size
          → key_at p' i ≡ key_at p m
          → Slot index p' i

    Slot-at :
        (index : ℕ) (p' : LeafPage K V) (i : ℕ)
        → Placed key value index p p'
        → i ≤ p.header.size
        → Slot index p' i
    Slot-at index p' zero h b = elim (ℕ_discrete 0 index) [
      | yes same ↦ at_it same (ap (λ x. (p'.array x).0) same ∙ ap (λ x. x.0) h.here)
      | no other ↦
          let lower : 0 < index = omega arith in before_it lower (ap (λ x. x.0) (h.before 0 lower))
    ]
    Slot-at index p' (suc m) h b = elim (ℕ_discrete (suc m) index) [
      | yes same ↦ at_it same (ap (λ x. (p'.array x).0) same ∙ ap (λ x. x.0) h.here)
      | no other ↦ elim (Bool-cases (ltb (suc m) index)) [
        | inl below ↦
            let lower : suc m < index = ground arith in
            before_it lower (ap (λ x. x.0) (h.before (suc m) lower))
        | inr above ↦
            let upper : index ≤ m = ground arith in
            behind_it m refl upper b (ap (λ x. x.0) (h.moved m upper b))
      ]
    ]

    module _
        (transitive : (x y z : K)
          → comparator x y ≡ true
          → comparator y z ≡ true
          → comparator x z ≡ true)
        (sorted : IsSorted p) where
      module _ (index : ℕ) (p' : LeafPage K V)
          (below : (i : ℕ) → i < index → comparator (key_at p i) key ≡ true)
          (above : (i : ℕ)
            → index ≤ i
            → i < p.header.size
            → comparator key (key_at p i) ≡ true) where
        in_order :
            (i j : ℕ)
            → i < j
            → j ≤ p.header.size
            → index ≤ p.header.size
            → Slot index p' i
            → Slot index p' j
            → comparator (key_at p' i) (key_at p' j) ≡ true
        in_order i j a b c (before_it l k) (before_it l' k') =
            rw (k, k') (sorted i j a (omega arith))
        in_order i j a b c (before_it l k) (at_it e' k') = rw (k, k') (below i l)
        in_order i j a b c (before_it l k) (behind_it m e' u' s' k') =
            rw (k, k') (sorted i m (omega arith) s')
        in_order i j a b c (at_it e k) (before_it l' k') = absurd (omega arith)
        in_order i j a b c (at_it e k) (at_it e' k') = absurd (omega arith)
        in_order i j a b c (at_it e k) (behind_it m e' u' s' k') = rw (k, k') (above m u' s')
        in_order i j a b c (behind_it m e u s k) (before_it l' k') = absurd (omega arith)
        in_order i j a b c (behind_it m e u s k) (at_it e' k') = absurd (omega arith)
        in_order i j a b c (behind_it m e u s k) (behind_it m' e' u' s' k') =
            rw (k, k') (sorted m m' (omega arith) s')

        Placed-IsSorted : Placed key value index p p' → IsSorted p'
        Placed-IsSorted h i j a b =
            let size : p'.header.size ≡ p.header.size + 1 = ap (λ x. x.size) h.header in
            in_order i j a (omega arith) h.in_range (Slot-at index p' i h (omega arith))
              (Slot-at index p' j h (omega arith))

      border :
          IsBorder (λ i. comparator (key_at p i) key) 0 (key_index comparator key p) p.header.size
      unfolding key_index
      border =
          subst (λ last. IsBorder test 0 (partition_point test n 0 n) last) (zero-add n)
            (partition_point-IsBorder test n 0 n (omega arith) (λ i j a b c h.
              transitive (key_at p i) (key_at p j) key (sorted i j b (omega arith)) h))
        where
          n : ℕ
          n = p.header.size

          test : ℕ → Bool
          test i = comparator (key_at p i) key

      -- On a sorted page and with a transitive comparator: insertion into a full page, or of a key
      -- that the page holds, returns -1 and changes nothing. Any other puts the pair at one index,
      -- moves the pairs from there on up by one, touches no slot behind them, returns the new
      -- size, and leaves the page sorted.
      pub insert-Inserts : Inserts key value p
      unfolding insert
      insert-Inserts = elim (Bool-cases (leb p.header.max_size p.header.size)) [
        | inl is_full ↦ full (ground arith) (rw is_full refl)
        | inr room ↦ elim (Bool-cases (is_duplicate comparator key index p)) [
          | inl found ↦
              let inside : index < p.header.size = ground arith in
              duplicate index inside (ground arith) (ground arith) (rw (room, found) refl)
          | inr fresh ↦
              let placed = placed_at-Placed index border.to in
              let next = λ (h : index < p.header.size).
                let smaller = border.fails index (omega arith) h in
                let larger : comparator key (key_at p index) ≡ true = ground arith in larger in
              inserted index (placed_at index) (ground arith) (rw (room, fresh) refl) placed (
                Placed-IsSorted index (placed_at index) (λ i h. border.holds i (omega arith) h)
                  (λ i h b. elim (ℕ_discrete index i) [
                    | yes same ↦
                        subst (λ x. comparator key (key_at p x) ≡ true) same (next (omega arith))
                    | no other ↦
                        transitive key (key_at p index) (key_at p i) (next (omega arith))
                          (sorted index i (omega arith) b)
                  ])
                  placed)
        ]
      ]
        where
          index : ℕ
          index = key_index comparator key p

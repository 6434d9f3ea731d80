-- ===== src/BPlusTree/Internal.antt =====
-- Looking up the child of an internal page.
use adaptive_query_accelerat.Common.{
  ℕ, ◌+◌, ◌-◌, ◌≤◌, ◌<◌, ◌≡◌, inl, inr, refl, Bool, true, false, not, arith, Bool-cases,
}
use adaptive_query_accelerat.BPlusTree.{InternalPage, lookup, partition_point}
use adaptive_query_accelerat.BPlusTree.Search.{IsBorder, partition_point-IsBorder}

module _ {K V : Type 0} (comparator : K → K → Bool) where
  abbrev pub separator : InternalPage K V → ℕ → K
  separator p i = (p.array i).0

  -- The separators, which begin at index 1, are in order.
  abbrev pub InOrder : InternalPage K V → Type 0
  InOrder p =
      (i j : ℕ)
      → 1 ≤ i
      → i < j
      → j < p.header.size
      → comparator (separator p i) (separator p j) ≡ true

  -- The child for a key: no separator up to it is above the key, and each one behind it is.
  pub record IsChild (key : K) (p : InternalPage K V) (child : ℕ) : Type 0 where
    pub in_range : child < p.header.size
    pub up_to : (i : ℕ) → 1 ≤ i → i ≤ child → comparator key (separator p i) ≡ false
    pub behind : (i : ℕ) → child < i → i < p.header.size → comparator key (separator p i) ≡ true

  -- On a page that is not empty, with its separators in order and a transitive comparator, the
  -- search finds the child whose separators enclose the key.
  pub lookup-IsChild :
      ((x y z : K) → comparator x y ≡ true → comparator y z ≡ true → comparator x z ≡ true)
      → (p : InternalPage K V) → InOrder p
      → 0 < p.header.size
      → (none_value : V) (key : K)
      → (child : ℕ) × IsChild key p child × (lookup comparator none_value key p ≡ (p.array child).1)
  unfolding lookup
  lookup-IsChild transitive p ordered some_child none_value key =
      let from = found.from in
      let to = found.to in
      (
        border - 1,
        record {
          in_range = omega arith;
          up_to = λ i a b. let h = found.holds i a (omega arith) in ground arith;
          behind = λ i a b. let h = found.fails i (omega arith) (omega arith) in ground arith;
        },
        ground arith,
      )
    where
      n : ℕ
      n = p.header.size - 1

      test : ℕ → Bool
      test i = not (comparator key (separator p i))

      border : ℕ
      border = partition_point test n 1 n

      found : IsBorder test 1 border (1 + n)
      found = partition_point-IsBorder test n 1 n (omega arith) (λ i j a b c h.
          elim (Bool-cases (comparator key (separator p i))) [
            | inr below ↦ rw below refl
            | inl above ↦
                let later =
                  transitive key (separator p i) (separator p j) above
                    (ordered i j a b (omega arith)) in
                ground arith
          ])

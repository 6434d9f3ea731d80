-- ===== src/BPlusTree/Search.antt =====
-- The binary search of the standard library finds the border of a test that holds on a prefix.
use adaptive_query_accelerat.Common.{
  ℕ_discrete, ap, ◌∙◌, ltb, ℕ, zero, suc, ◌+◌, ◌-◌, ◌/◌, ◌≤◌, ◌<◌, ◌≡◌, inl, inr, Bool, true, false,
  arith, Bool-cases,
}
use adaptive_query_accelerat.BPlusTree.{partition_point}

module _ (test : ℕ → Bool) where
  -- The test holds of the indices from `first` on up to `border`, and of none from there to `last`.
  pub record IsBorder (first border last : ℕ) : Type 0 where
    pub from : first ≤ border
    pub to : border ≤ last
    pub holds : (i : ℕ) → first ≤ i → i < border → test i ≡ true
    pub fails : (i : ℕ) → border ≤ i → i < last → test i ≡ false

  -- The test, where it holds, holds of every index before.
  abbrev pub Partitioned : ℕ → ℕ → Type 0
  Partitioned first last = (i j : ℕ) → first ≤ i → i < j → j < last → test j ≡ true → test i ≡ true

  to_right :
      {first last border rest : ℕ} (mid : ℕ)
      → first ≤ mid
      → rest ≡ last
      → mid < last
      → test mid ≡ true
      → Partitioned first last
      → IsBorder (suc mid) border rest
      → IsBorder first border last
  to_right {first} {last} {border} mid a e c holds sorted b = record {
    from = let f = b.from in omega arith;
    to = let t = b.to in omega arith;
    holds = λ i p q. elim (ℕ_discrete i mid) [
      | yes same ↦ ap test same ∙ holds
      | no other ↦ elim (Bool-cases (ltb i mid)) [
        | inl below ↦ sorted i mid p (ground arith) c holds
        | inr above ↦ b.holds i (ground arith) q
      ]
    ];
    fails = λ i p q. b.fails i p (omega arith);
  }

  to_left :
      {first last border : ℕ} (mid : ℕ)
      → first ≤ mid
      → mid < last
      → test mid ≡ false
      → Partitioned first last
      → IsBorder first border mid
      → IsBorder first border last
  to_left {first} {last} {border} mid a c fails sorted b = record {
    from = b.from;
    to = let t = b.to in omega arith;
    holds = b.holds;
    fails = λ i p q. elim (Bool-cases (test i)) [
      | inr not_i ↦ not_i
      | inl at_i ↦ elim (ℕ_discrete i mid) [
        | yes same ↦ ap test same ∙ fails
        | no other ↦ elim (Bool-cases (ltb i mid)) [
          | inl below ↦ b.fails i p (ground arith)
          | inr above ↦ let earlier = sorted mid i a (ground arith) q at_i in cc
        ]
      ]
    ];
  }

  pub partition_point-IsBorder :
      (fuel first len : ℕ)
      → len ≤ fuel
      → Partitioned first (first + len)
      → IsBorder first (partition_point test fuel first len) (first + len)
  unfolding partition_point
  partition_point-IsBorder zero first len enough sorted = record {
    from = omega arith;
    to = omega arith;
    holds = λ i a b. ground arith;
    fails = λ i a b. ground arith;
  }
  partition_point-IsBorder (suc fuel) first zero enough sorted = record {
    from = omega arith;
    to = omega arith;
    holds = λ i a b. ground arith;
    fails = λ i a b. ground arith;
  }
  partition_point-IsBorder (suc fuel) first (suc l) enough sorted = elim (Bool-cases (test mid)) [
    | inl holds ↦
        let ih =
          partition_point-IsBorder fuel (suc mid) (len - half - 1) (omega arith)
            (λ i j a b c. sorted i j (omega arith) b (omega arith)) in
        rw holds (to_right mid (omega arith) (omega arith) (omega arith) holds sorted ih)
    | inr fails ↦
        let ih =
          partition_point-IsBorder fuel first half (omega arith)
            (λ i j a b c. sorted i j a b (omega arith)) in
        rw fails (to_left mid (omega arith) (omega arith) fails sorted ih)
  ]
    where
      len : ℕ
      len = suc l

      half : ℕ
      half = len / 2

      mid : ℕ
      mid = first + half

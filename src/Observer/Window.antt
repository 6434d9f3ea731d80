-- ===== src/Observer/Window.antt =====
-- The loop of `get_recent_page_accesses` reads a window of the ring: what one write does to it.
use native.Mathlib.Nat.{
  add-zero, zero-add, add-mod_right, mod-add-mod, mod-eq_of_lt, mod-eq-sub-mod,
}
use adaptive_query_accelerat.Common.{
  ℕ, zero, suc, ◌+◌, ◌-◌, ◌%◌, ◌^◌, ◌≤◌, ◌<◌, ◌≡◌, ◌≢◌, ◌⊎◌, inl, inr, Bool-cases, ltb, refl, sym,
  ◌∙◌, ap, ap₂, List, [], ◌∷◌, ◌++◌, arith, u64, length, get_or, set, get_or-set_self,
  get_or-set_ne, tail, take,
}
use adaptive_query_accelerat.Observer.{PageAccessEvent, no_event, collect}

-- A slot less than a round further on: past the end it begins again at 0.
wrapped : (cap i : ℕ) → i < cap + cap → (i % cap ≡ i) ⊎ (i % cap + cap ≡ i)
wrapped cap i below = elim (Bool-cases (ltb i cap)) [
  | inl inside ↦ let within : i < cap = ground arith in inl (mod-eq_of_lt within)
  | inr outside ↦
      let behind : cap ≤ i = ground arith in
      let within : i - cap < cap = omega arith in
      inr (ap (λ j. j + cap) (mod-eq-sub-mod behind ∙ mod-eq_of_lt within) ∙ omega arith)
]

-- Fewer steps than the capacity do not come round to where they started.
no_return : (cap h k : ℕ) → h < cap → suc k < cap → (h + suc k) % cap ≢ h
no_return cap h k inside few back = elim (wrapped cap (h + suc k) (omega arith)) [
  | inl straight ↦ omega (arith, back, straight)
  | inr round ↦ omega (arith, back, round)
]

-- The slot after `idx`, and `n` further on.
next_slot :
    (cap idx n : ℕ)
    → cap < 2 ^ 63
    → idx < cap
    → (u64 (idx + 1) % cap + n) % cap ≡ (idx + suc n) % cap
next_slot cap idx n small h =
    let no_wrap : u64 (idx + 1) ≡ idx + 1 = omega arith in
    let regroup : idx + 1 + n ≡ idx + suc n = omega arith in
    rw (no_wrap, mod-add-mod) (ap (λ (k : ℕ). k % cap) regroup)

module _ (ring : List PageAccessEvent) (cap : ℕ) where
  pub length-collect : (n idx : ℕ) → length (collect ring cap n idx) ≡ n
  unfolding collect
  length-collect zero idx = refl
  length-collect (suc n) idx = ap suc (length-collect n (u64 (idx + 1) % cap))

  -- Fewer rounds read a prefix.
  pub take-collect :
      (k n idx : ℕ) → k ≤ n → collect ring cap k idx ≡ take k (collect ring cap n idx)
  unfolding collect
  take-collect zero n idx h = refl
  take-collect (suc k) zero idx h = absurd (omega arith)
  take-collect (suc k) (suc n) idx h =
      ap (◌∷◌ (get_or ring idx no_event)) (take-collect k n (u64 (idx + 1) % cap) (omega arith))

module _ (ring : List PageAccessEvent) (cap : ℕ) (small : cap < 2 ^ 63) where
  -- One round more reads one slot more, at the end.
  pub collect_snoc :
      (n idx : ℕ)
      → idx < cap
      → collect ring cap (suc n) idx
        ≡ collect ring cap n idx ++ get_or ring ((idx + n) % cap) no_event ∷ []
  unfolding collect
  collect_snoc zero idx h =
      let here : (idx + 0) % cap ≡ idx = rw add-zero (mod-eq_of_lt h) in rw here
  collect_snoc (suc n) idx h =
      let there = u64 (idx + 1) % cap in
      ap (◌∷◌ (get_or ring idx no_event))
        (rw (← next_slot cap idx n small h) (collect_snoc n there (omega arith)))

module _ (ring : List PageAccessEvent) (cap : ℕ) (small : cap < 2 ^ 63) where
  -- A write just behind the slots that are read does not show.
  pub collect-set :
      (e : PageAccessEvent) (n idx i : ℕ)
      → idx < cap
      → n < cap
      → i ≡ (idx + n) % cap
      → collect (set ring i e) cap n idx ≡ collect ring cap n idx
  unfolding collect
  collect-set e zero idx i h hn q = refl
  collect-set e (suc n) idx i h hn q =
      ap₂ ◌∷◌ (get_or-set_ne ring i idx e no_event (rw q (no_return cap idx n h hn))) (
        collect-set e n (u64 (idx + 1) % cap) i (omega arith) (omega arith)
          (q ∙ sym (next_slot cap idx n small h)))

  module _ (e : PageAccessEvent) (slots : length ring ≡ cap) where
    -- In a full ring the write replaces the oldest event, and the window moves one slot on.
    pub collect_full :
        (m h : ℕ)
        → suc m ≡ cap
        → h < cap
        → collect (set ring h e) cap (suc m) (u64 (h + 1) % cap)
          ≡ tail (collect ring cap (suc m) h) ++ e ∷ []
    unfolding collect
    collect_full m h full hh =
        let s = u64 (h + 1) % cap in
        let round : (s + m) % cap ≡ h =
          next_slot cap h m small hh ∙ rw (full, add-mod_right) (mod-eq_of_lt hh) in
        collect_snoc (set ring h e) cap small m s (omega arith)
        ∙ rw (round, get_or-set_self ring h e no_event (omega arith))
            (ap (λ w. w ++ e ∷ []) (collect-set e m s h (omega arith) (omega arith) (sym round)))

    -- In a ring that is filling up the write extends the window.
    pub collect_filling :
        (n : ℕ) → n < cap → collect (set ring n e) cap (suc n) 0 ≡ collect ring cap n 0 ++ e ∷ []
    collect_filling n h =
        let at_end : (0 + n) % cap ≡ n = rw zero-add (mod-eq_of_lt h) in
        collect_snoc (set ring n e) cap small n 0 (omega arith)
        ∙ rw (at_end, get_or-set_self ring n e no_event (omega arith))
            (ap (λ w. w ++ e ∷ []) (collect-set e n 0 n (omega arith) h (sym at_end)))

-- ===== src/Common/Maps.antt =====
-- `std::unordered_map` as an association list: each key at most once, and an order that the code
-- does not depend on.
use mathlib.Core.Path.{◌≡◌, refl, sym, ◌∙◌}
use mathlib.Core.Logic.{ite, if_pos, if_neg, ◌≢◌, ◌⊎◌, inl, inr}
use mathlib.Core.Option.{Option, none, some}
use mathlib.Core.List.{List, [], ◌∷◌}
use native.Mathlib.Omega.{arith}

abbrev pub Map {ℓ} : Type ℓ → Type ℓ → Type ℓ
Map K V = List (K × V)

module _ {ℓ} {K V : Type ℓ} (dec : Discrete K) where
  -- `m.find(k)`
  unfoldable pub find : K → Map K V → Option V
  find k [] = none
  find k ((j, v) ∷ m) = ite (dec j k) (some v) (find k m)

  -- `m.erase(k)`
  unfoldable pub erase : K → Map K V → Map K V
  erase k [] = []
  erase k ((j, v) ∷ m) = ite (dec j k) (erase k m) ((j, v) ∷ erase k m)

  -- `m[k] = v`
  unfoldable pub assign : K → V → Map K V → Map K V
  unfolding erase
  assign k v m = (k, v) ∷ erase k m

  pub find-erase : (k j : K) (m : Map K V) → find j (erase k m) ≡ ite (dec k j) none (find j m)
  unfolding find erase
  find-erase k j [] = ground arith
  find-erase k j ((i, v) ∷ m) = ground (arith, find-erase k j m)

  pub find-assign :
      (k j : K) (v : V) (m : Map K V) → find j (assign k v m) ≡ ite (dec k j) (some v) (find j m)
  unfolding find assign
  find-assign k j v m = ground (arith, find-erase k j m)

  pub erase-absent : (k j : K) (m : Map K V) → find j m ≡ none → find j (erase k m) ≡ none
  erase-absent k j m h = rw find-erase (ground arith)

  pub find-erase_ne : (k j : K) (m : Map K V) → k ≢ j → find j (erase k m) ≡ find j m
  find-erase_ne k j m h = find-erase k j m ∙ if_neg (dec k j) h none (find j m)

  pub find-assign_self : (k : K) (v : V) (m : Map K V) → find k (assign k v m) ≡ some v
  find-assign_self k v m = find-assign k k v m ∙ if_pos (dec k k) refl (some v) (find k m)

  pub find-assign_ne : (k j : K) (v : V) (m : Map K V) → k ≢ j → find j (assign k v m) ≡ find j m
  find-assign_ne k j v m h = find-assign k j v m ∙ if_neg (dec k j) h (some v) (find j m)

  -- What is found after an erasure was there, under another key.
  pub erase-some :
      (k j : K) (m : Map K V) {v : V} → find j (erase k m) ≡ some v → (k ≢ j) × (find j m ≡ some v)
  erase-some k j m h = elim (dec k j) [
    | yes p ↦ absurd (cc (sym (find-erase k j m) ∙ h, if_pos (dec k j) p none (find j m)))
    | no p ↦ (p, sym (find-erase_ne k j m p) ∙ h)
  ]

  -- What is found after an assignment is the new value, or was there under another key.
  pub assign-some :
      (k j : K) (w : V) (m : Map K V) {v : V}
      → find j (assign k w m) ≡ some v
      → ((k ≡ j) × (w ≡ v)) ⊎ ((k ≢ j) × (find j m ≡ some v))
  assign-some k j w m {v} h = elim (dec k j) [
    | yes p ↦
        let found : find j (assign k w m) ≡ some w =
          find-assign k j w m ∙ if_pos (dec k j) p (some w) (find j m) in
        inl (p, ground arith)
    | no p ↦ inr (p, sym (find-assign_ne k j w m p) ∙ h)
  ]

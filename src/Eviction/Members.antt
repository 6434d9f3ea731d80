-- ===== src/Eviction/Members.antt =====
-- Every policy gives up one of the candidates that it is offered.
use adaptive_query_accelerat.Common.{
  ℕ, ◌≡◌, refl, sym, subst, ◌⊎◌, Bool-cases, inl, inr, Option, none, some, List, [], ◌∷◌, IsIn, ltb,
}
use adaptive_query_accelerat.WorkloadHint.{WorkloadHint, point_lookup, scan}
use adaptive_query_accelerat.Observer.{AccessObserver, get_access_count}
use adaptive_query_accelerat.Eviction
use adaptive_query_accelerat.Eviction.{
  in_run, first_in_run, recent_set, least_from, least_used, scan_candidates, or_all, combined_among,
}
use adaptive_query_accelerat.Eviction.Doubles.{Doubles}
use adaptive_query_accelerat.Eviction.Learned.{
  LearnedPolicy, Weights, loaded_features, loaded_score, feedback, lowest_score_from,
  loaded_learned, learned,
}
use adaptive_query_accelerat.Eviction.Agreement.{learned-loaded, hint_aware-agrees}
use adaptive_query_accelerat.Eviction.Least.{combined_among-least_used}
use adaptive_query_accelerat.Eviction.Policy.{PageEvictionPolicy, choose_victim}

first_in_run-IsIn :
    (recent : List ℕ) (fallback : ℕ) (pids : List ℕ)
    → (first_in_run recent fallback pids ≡ fallback) ⊎ IsIn (first_in_run recent fallback pids) pids
unfolding first_in_run
first_in_run-IsIn recent fallback [] = inl refl
first_in_run-IsIn recent fallback (pid ∷ pids) =
    let Good = λ (x : ℕ). (x ≡ fallback) ⊎ IsIn x (pid ∷ pids) in
    elim (Bool-cases (in_run recent pid)) [
      | inl found ↦ subst Good {x = pid} (rw found) (inr (inl refl))
      | inr other ↦
          subst Good {x = first_in_run recent fallback pids} (rw other)
            (elim (first_in_run-IsIn recent fallback pids) [ inl e ↦ inl e | inr m ↦ inr (inr m) ])
    ]

least_from-IsIn :
    (o : AccessObserver) (v c : ℕ) (pids : List ℕ)
    → (v ≡ least_from o v c pids) ⊎ IsIn (least_from o v c pids) pids
unfolding least_from
least_from-IsIn o v c [] = inl refl
least_from-IsIn o v c (pid ∷ pids) =
    let Good = λ (x : ℕ). (v ≡ x) ⊎ IsIn x (pid ∷ pids) in
    let c' = get_access_count o pid in
    elim (Bool-cases (ltb c' c)) [
      | inl better ↦
          subst Good {x = least_from o pid c' pids} (rw better)
            (inr (least_from-IsIn o pid c' pids))
      | inr kept ↦
          subst Good {x = least_from o v c pids} (rw kept)
            (elim (least_from-IsIn o v c pids) [ inl e ↦ inl e | inr m ↦ inr (inr m) ])
    ]

least_used-IsIn :
    (o : AccessObserver) (pid : ℕ) (pids : List ℕ) → IsIn (least_used o (pid ∷ pids)) (pid ∷ pids)
unfolding least_used
least_used-IsIn o pid pids = least_from-IsIn o pid (get_access_count o pid) pids

combined_among-IsIn :
    (o : AccessObserver) (pid : ℕ) (pids : List ℕ)
    → IsIn (combined_among o (pid ∷ pids)) (pid ∷ pids)
combined_among-IsIn o pid pids =
    subst (λ x. IsIn x (pid ∷ pids)) (sym (combined_among-least_used o (pid ∷ pids)))
      (least_used-IsIn o pid pids)

scan_candidates-IsIn :
    (recent : List ℕ) (x : ℕ) (pids : List ℕ) → IsIn x (scan_candidates recent pids) → IsIn x pids
unfolding scan_candidates
scan_candidates-IsIn recent x [] m = m
scan_candidates-IsIn recent x (pid ∷ pids) m = elim (Bool-cases (in_run recent pid)) [
  | inl found ↦ elim (subst (IsIn x) {y = pid ∷ scan_candidates recent pids} (rw found) m) [
    | inl e ↦ inl e
    | inr m' ↦ inr (scan_candidates-IsIn recent x pids m')
  ]
  | inr other ↦ inr (
      scan_candidates-IsIn recent x pids
        (subst (IsIn x) {y = scan_candidates recent pids} (rw other) m))
]

scan_resistant-IsIn :
    (observer : Option AccessObserver) (pid : ℕ) (pids : List ℕ)
    → IsIn (Eviction.scan_resistant observer (pid ∷ pids)) (pid ∷ pids)
unfolding Eviction.scan_resistant
scan_resistant-IsIn none pid pids = inl refl
scan_resistant-IsIn (some o) pid pids = elim (first_in_run-IsIn (recent_set o) pid (pid ∷ pids)) [
  | inl e ↦ inl (sym e)
  | inr m ↦ m
]

lfu-IsIn :
    (observer : Option AccessObserver) (pid : ℕ) (pids : List ℕ)
    → IsIn (Eviction.lfu observer (pid ∷ pids)) (pid ∷ pids)
unfolding Eviction.lfu
lfu-IsIn none pid pids = inl refl
lfu-IsIn (some o) pid pids = least_used-IsIn o pid pids

combined-IsIn :
    (observer : Option AccessObserver) (pid : ℕ) (pids : List ℕ)
    → IsIn (Eviction.scan_resistant_then_lfu observer (pid ∷ pids)) (pid ∷ pids)
unfolding Eviction.scan_resistant_then_lfu
combined-IsIn none pid pids = inl refl
combined-IsIn (some o) pid pids =
    among (scan_candidates (recent_set o) (pid ∷ pids))
      (λ x. scan_candidates-IsIn (recent_set o) x (pid ∷ pids))
  where
    among :
        (cs : List ℕ)
        → ((x : ℕ) → IsIn x cs → IsIn x (pid ∷ pids))
        → IsIn (combined_among o (or_all (pid ∷ pids) cs)) (pid ∷ pids)
    among [] sub = combined_among-IsIn o pid pids
    among (c ∷ cs) sub = sub _ (combined_among-IsIn o c cs)

hint_aware-IsIn :
    (g : WorkloadHint) (observer : Option AccessObserver) (pid : ℕ) (pids : List ℕ)
    → IsIn (Eviction.hint_aware g observer (pid ∷ pids)) (pid ∷ pids)
hint_aware-IsIn scan observer pid pids =
    subst (λ x. IsIn x (pid ∷ pids)) (sym (hint_aware-agrees observer (pid ∷ pids)).0)
      (scan_resistant-IsIn observer pid pids)
hint_aware-IsIn point_lookup observer pid pids =
    subst (λ x. IsIn x (pid ∷ pids)) (sym (hint_aware-agrees observer (pid ∷ pids)).1)
      (lfu-IsIn observer pid pids)

module _ (doubles : Doubles) where
  open doubles use {Double, less}

  lowest_score-IsIn :
      (o : AccessObserver) (w : Weights Double) (v : ℕ) (s : Double) (pids : List ℕ)
      → (v ≡ lowest_score_from doubles o w v s pids)
        ⊎ IsIn (lowest_score_from doubles o w v s pids) pids
  unfolding lowest_score_from
  lowest_score-IsIn o w v s [] = inl refl
  lowest_score-IsIn o w v s (pid ∷ pids) =
      let Good = λ (x : ℕ). (v ≡ x) ⊎ IsIn x (pid ∷ pids) in
      let s' = loaded_score doubles w (loaded_features doubles (some o) pid) in
      let loop = lowest_score_from doubles o w in
      elim (Bool-cases (less s' s)) [
        | inl better ↦
            subst Good {x = loop pid s' pids} (rw better) (inr (lowest_score-IsIn o w pid s' pids))
        | inr kept ↦
            subst Good {x = loop v s pids} (rw kept)
              (elim (lowest_score-IsIn o w v s pids) [ inl e ↦ inl e | inr m ↦ inr (inr m) ])
      ]

  loaded-IsIn :
      (observer : Option AccessObserver) (w : Weights Double) (pid : ℕ) (pids : List ℕ)
      → IsIn (loaded_learned doubles observer w (pid ∷ pids)) (pid ∷ pids)
  unfolding loaded_learned
  loaded-IsIn none w pid pids = inl refl
  loaded-IsIn (some o) w pid pids =
      lowest_score-IsIn o w pid (loaded_score doubles w (loaded_features doubles (some o) pid)) pids

  learned-IsIn :
      (observer : Option AccessObserver) (p : LearnedPolicy Double) (pid : ℕ) (pids : List ℕ)
      → IsIn (learned doubles observer p (pid ∷ pids)).0 (pid ∷ pids)
  learned-IsIn none p pid pids = unfold learned in inl refl
  learned-IsIn (some o) p pid pids =
      subst (λ x. IsIn x (pid ∷ pids)) (sym (learned-loaded doubles o p (pid ∷ pids)))
        (loaded-IsIn (some o) (feedback doubles o p).weights pid pids)

  -- Every policy, with an observer or without and under either hint, gives up one of the pages that
  -- it is offered, if it is offered any.
  pub choose_victim-IsIn :
      (g : WorkloadHint) (observer : Option AccessObserver) (policy : PageEvictionPolicy doubles)
      → (pid : ℕ) (pids : List ℕ)
      → IsIn (choose_victim doubles g observer policy (pid ∷ pids)).0 (pid ∷ pids)
  unfolding choose_victim
  choose_victim-IsIn g observer PageEvictionPolicy.lru pid pids = unfold Eviction.lru in inl refl
  choose_victim-IsIn g observer PageEvictionPolicy.scan_resistant pid pids =
      scan_resistant-IsIn observer pid pids
  choose_victim-IsIn g observer PageEvictionPolicy.lfu pid pids = lfu-IsIn observer pid pids
  choose_victim-IsIn g observer PageEvictionPolicy.scan_resistant_then_lfu pid pids =
      combined-IsIn observer pid pids
  choose_victim-IsIn g observer PageEvictionPolicy.hint_aware pid pids =
      hint_aware-IsIn g observer pid pids
  choose_victim-IsIn g observer (PageEvictionPolicy.learned p) pid pids =
      learned-IsIn observer p pid pids
  choose_victim-IsIn g observer (PageEvictionPolicy.loaded_learned w) pid pids =
      loaded-IsIn observer w pid pids

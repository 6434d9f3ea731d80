-- ===== src/Eviction/Agreement.antt =====
-- Policies that choose alike.
use mathlib.Core.Option
use adaptive_query_accelerat.Common.{
  ℕ, ◌+◌, ◌-◌, ◌&&◌, ◌||◌, ◌≡◌, refl, ap, ◌∙◌, Bool-cases, inl, inr, Option, none, some, List, [],
  ◌∷◌, ltb, u32, arith,
}
use adaptive_query_accelerat.WorkloadHint.{point_lookup, scan}
use adaptive_query_accelerat.Observer.{AccessObserver, get_access_count}
use adaptive_query_accelerat.Eviction.{
  contains, in_run, front, first_in_run, scan_resistant, lfu, least_from, least_used,
  scan_candidates, or_all, recent_set, hint_aware, hint_scan_loop, hint_count_loop,
}
use adaptive_query_accelerat.Eviction.Doubles.{Doubles}
use adaptive_query_accelerat.Eviction.Learned.{
  LearnedPolicy, Weights, Features, extract_features, score, feedback, lowest_from, learned,
  lowest_score_from, loaded_learned, loaded_features, loaded_score,
}

first_in_run-front :
    (recent : List ℕ) (fallback : ℕ) (pids : List ℕ)
    → first_in_run recent fallback pids
      ≡ front (or_all (fallback ∷ []) (scan_candidates recent pids))
unfolding first_in_run scan_candidates
first_in_run-front recent fallback [] = refl
first_in_run-front recent fallback (pid ∷ pids) =
    ground (arith, first_in_run-front recent fallback pids)

front-or_all :
    (pid : ℕ) (pids cs : List ℕ) → front (or_all (pid ∷ []) cs) ≡ front (or_all (pid ∷ pids) cs)
front-or_all pid pids [] = refl
front-or_all pid pids (c ∷ cs) = refl

-- With an observer, the scan-resistant policy gives up the least recently used of the candidates in
-- a run, and of all candidates if none is in a run.
pub scan_resistant-front :
    (o : AccessObserver) (pids : List ℕ)
    → scan_resistant (some o) pids ≡ front (or_all pids (scan_candidates (recent_set o) pids))
unfolding scan_resistant scan_candidates
scan_resistant-front o [] = refl
scan_resistant-front o (pid ∷ pids) =
    first_in_run-front (recent_set o) pid (pid ∷ pids)
    ∙ front-or_all pid pids (scan_candidates (recent_set o) (pid ∷ pids))

hint_scan_loop-first :
    (recent : List ℕ) (fallback : ℕ) (pids : List ℕ)
    → Option.get_or (hint_scan_loop recent pids) fallback ≡ first_in_run recent fallback pids
unfolding hint_scan_loop first_in_run in_run
hint_scan_loop-first recent fallback [] = refl
hint_scan_loop-first recent fallback (pid ∷ pids) =
    let found = contains (u32 (pid + 1)) recent || (ltb 0 pid && contains (pid - 1) recent) in
    elim (Bool-cases found) [
      | inl here ↦ rw here refl
      | inr other ↦ rw other (hint_scan_loop-first recent fallback pids)
    ]

hint_count_loop-least :
    (o : AccessObserver) (victim min_count : ℕ) (pids : List ℕ)
    → hint_count_loop o (victim, min_count) pids ≡ least_from o victim min_count pids
unfolding hint_count_loop least_from
hint_count_loop-least o victim min_count [] = refl
hint_count_loop-least o victim min_count (pid ∷ pids) =
    let c = get_access_count o pid in
    elim (Bool-cases (ltb c min_count)) [
      | inl better ↦ rw better (hint_count_loop-least o pid c pids)
      | inr kept ↦ rw kept (hint_count_loop-least o victim min_count pids)
    ]

-- Under the scan hint the hint-aware policy chooses as the scan-resistant one does, and otherwise
-- as LFU does, with an observer or without.
pub hint_aware-agrees :
    (observer : Option AccessObserver) (pids : List ℕ)
    → (hint_aware scan observer pids ≡ scan_resistant observer pids)
      × (hint_aware point_lookup observer pids ≡ lfu observer pids)
unfolding hint_aware scan_resistant lfu least_used
hint_aware-agrees observer [] = (refl, refl)
hint_aware-agrees none (pid ∷ pids) = (refl, refl)
hint_aware-agrees (some o) (pid ∷ pids) = (
  hint_scan_loop-first (recent_set o) pid (pid ∷ pids),
  hint_count_loop-least o pid (get_access_count o pid) pids,
)

module _ (doubles : Doubles) where
  open doubles use {Double, less}

  loaded_features-agrees :
      (observer : Option AccessObserver) (page_id : ℕ)
      → loaded_features doubles observer page_id ≡ extract_features doubles observer page_id
  unfolding loaded_features extract_features in_run
  loaded_features-agrees none page_id = refl
  loaded_features-agrees (some o) page_id = refl

  loaded_score-agrees :
      (w : Weights Double) (o : AccessObserver) (page_id : ℕ)
      → loaded_score doubles w (loaded_features doubles (some o) page_id)
        ≡ score doubles w (extract_features doubles (some o) page_id)
  unfolding loaded_score score
  loaded_score-agrees w o page_id = ap (score doubles w) (loaded_features-agrees (some o) page_id)

  lowest_from-victim :
      (o : AccessObserver) (w : Weights Double) (victim : ℕ) (f : Features Double) (s : Double)
      (pids : List ℕ)
      → (lowest_from doubles o w victim f s pids).0 ≡ lowest_score_from doubles o w victim s pids
  unfolding lowest_from lowest_score_from
  lowest_from-victim o w victim f s [] = refl
  lowest_from-victim o w victim f s (pid ∷ pids) =
      let f' = extract_features doubles (some o) pid in
      let s' = score doubles w f' in
      rw (loaded_score-agrees w o pid) (elim (Bool-cases (less s' s)) [
        | inl better ↦ rw better (lowest_from-victim o w pid f' s' pids)
        | inr kept ↦ rw kept (lowest_from-victim o w victim f s pids)
      ])

  -- With an observer, the learned policy chooses as the loaded one would with the weights that the
  -- learned policy has after its feedback.
  pub learned-loaded :
      (o : AccessObserver) (p : LearnedPolicy Double) (pids : List ℕ)
      → (learned doubles (some o) p pids).0
        ≡ loaded_learned doubles (some o) (feedback doubles o p).weights pids
  unfolding learned loaded_learned
  learned-loaded o p [] = refl
  learned-loaded o p (pid ∷ pids) = rw (loaded_score-agrees (feedback doubles o p).weights o pid) (
      lowest_from-victim o (feedback doubles o p).weights pid
        (extract_features doubles (some o) pid)
        (score doubles (feedback doubles o p).weights (extract_features doubles (some o) pid)) pids)

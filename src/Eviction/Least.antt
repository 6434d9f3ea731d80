-- ===== src/Eviction/Least.antt =====
-- The least-frequently-used loop: its victim is the first candidate whose count is minimal.
use adaptive_query_accelerat.Common.{
  ℕ, ◌≤◌, ◌<◌, ◌≡◌, refl, sym, inl, inr, some, List, [], ◌∷◌, ◌++◌, arith, All, All-append,
  All-weaken, append_assoc, append-nil, ltb, Bool-cases, subst,
}
use adaptive_query_accelerat.Observer.{AccessObserver, get_access_count}
use adaptive_query_accelerat.Eviction.{
  least_from, least_used, lfu, scan_candidates, or_all, recent_set, scan_resistant_then_lfu,
  combined_loop, combined_among,
}

-- `victim` is among the candidates; each candidate before it has a larger count, and none behind it
-- has a smaller one.
pub record IsFirstLeast (count : ℕ → ℕ) (pids : List ℕ) (victim : ℕ) : Type 0 where
  pub before : List ℕ
  pub after : List ℕ
  pub split : pids ≡ before ++ victim ∷ after
  pub above : All (λ pid. count victim < count pid) before
  pub not_below : All (λ pid. count victim ≤ count pid) after

module _ (o : AccessObserver) where
  abbrev count : ℕ → ℕ
  count = get_access_count o

  least_from-IsFirstLeast :
      (before : List ℕ) (v : ℕ) (seen rest : List ℕ)
      → All (λ pid. count v < count pid) before
      → All (λ pid. count v ≤ count pid) seen
      → IsFirstLeast count (before ++ v ∷ seen ++ rest) (least_from o v (count v) rest)
  unfolding least_from
  least_from-IsFirstLeast before v seen [] hb hs = record {
    before = before;
    after = seen;
    split = append-nil (before ++ v ∷ seen);
    above = hb;
    not_below = hs;
  }
  least_from-IsFirstLeast before v seen (pid ∷ rest) hb hs =
      elim (Bool-cases (ltb (count pid) (count v))) [
        | inl better ↦
            let below : count pid < count v = ground arith in
            let raised : All (λ q. count pid < count q) (before ++ v ∷ seen) =
              All-append (λ q. count pid < count q) before (v ∷ seen)
                (All-weaken (λ q. count v < count q) (λ q. count pid < count q)
                  (λ q (h : count v < count q). omega arith) before hb)
                (
                  below,
                  All-weaken (λ q. count v ≤ count q) (λ q. count pid < count q)
                      (λ q (h : count v ≤ count q). omega arith) seen hs,
                ) in
            rw better (
              subst (λ pids. IsFirstLeast count pids (least_from o pid (count pid) rest))
                (append_assoc (before ++ v ∷ seen) (pid ∷ []) rest)
                (least_from-IsFirstLeast (before ++ v ∷ seen) pid [] rest raised tt))
        | inr kept ↦
            let not_less : count v ≤ count pid = ground arith in
            rw kept (
              subst (λ pids. IsFirstLeast count pids (least_from o v (count v) rest))
                (simp append_assoc)
                (least_from-IsFirstLeast before v (seen ++ pid ∷ []) rest hb
                  (All-append (λ q. count v ≤ count q) seen (pid ∷ []) hs (not_less, tt))))
      ]

  pub least_used-IsFirstLeast :
      (pid : ℕ) (pids : List ℕ) → IsFirstLeast count (pid ∷ pids) (least_used o (pid ∷ pids))
  unfolding least_used
  least_used-IsFirstLeast pid pids = least_from-IsFirstLeast [] pid [] pids tt tt

combined_loop-least :
    (o : AccessObserver) (victim min_count : ℕ) (pids : List ℕ)
    → combined_loop o (victim, min_count) pids ≡ least_from o victim min_count pids
unfolding combined_loop least_from
combined_loop-least o victim min_count [] = refl
combined_loop-least o victim min_count (pid ∷ pids) =
    let c = get_access_count o pid in
    elim (Bool-cases (ltb c min_count)) [
      | inl better ↦ rw better (combined_loop-least o pid c pids)
      | inr kept ↦ rw kept (combined_loop-least o victim min_count pids)
    ]

-- The combined policy's choice among its candidates is LFU's.
pub combined_among-least_used :
    (o : AccessObserver) (pids : List ℕ) → combined_among o pids ≡ least_used o pids
unfolding combined_among least_used
combined_among-least_used o [] = refl
combined_among-least_used o (pid ∷ pids) = combined_loop-least o pid (get_access_count o pid) pids

-- With an observer, LFU gives up the first of the least used candidates; the combined policy does
-- so among the candidates in a run, and among all of them if none is.
pub least_used_policies :
    (o : AccessObserver) (pid : ℕ) (pids : List ℕ)
    → IsFirstLeast (get_access_count o) (pid ∷ pids) (lfu (some o) (pid ∷ pids))
      × IsFirstLeast
          (get_access_count o)
          (or_all (pid ∷ pids) (scan_candidates (recent_set o) (pid ∷ pids)))
          (scan_resistant_then_lfu (some o) (pid ∷ pids))
unfolding lfu scan_resistant_then_lfu
least_used_policies o pid pids = (
  least_used-IsFirstLeast o pid pids,
  subst
      (IsFirstLeast (get_access_count o)
        (or_all (pid ∷ pids) (scan_candidates (recent_set o) (pid ∷ pids))))
      (sym (
        combined_among-least_used o
          (or_all (pid ∷ pids) (scan_candidates (recent_set o) (pid ∷ pids)))))
      (among_candidates (scan_candidates (recent_set o) (pid ∷ pids))),
)
  where
    among_candidates :
        (cs : List ℕ)
        → IsFirstLeast
            (get_access_count o)
            (or_all (pid ∷ pids) cs)
            (least_used o (or_all (pid ∷ pids) cs))
    among_candidates [] = least_used-IsFirstLeast o pid pids
    among_candidates (c ∷ cs) = least_used-IsFirstLeast o c cs

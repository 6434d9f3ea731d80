-- ===== src/Eviction/Policy.antt =====
-- The class `PageEvictionPolicy`: one constructor for each subclass, and `choose_victim` as the
-- dispatch. The learned policy is the only one with a state of its own.
use adaptive_query_accelerat.Common.{ℕ, Option, List}
use adaptive_query_accelerat.Observer.{AccessObserver}
use adaptive_query_accelerat.WorkloadHint.{WorkloadHint}
use adaptive_query_accelerat.Eviction
use adaptive_query_accelerat.Eviction.Doubles.{Doubles}
use adaptive_query_accelerat.Eviction.Learned
use adaptive_query_accelerat.Eviction.Learned.{LearnedPolicy, Weights}

module _ (doubles : Doubles) where
  open doubles use {Double}

  pub data PageEvictionPolicy : Type 0 where
    lru : PageEvictionPolicy
    scan_resistant : PageEvictionPolicy
    lfu : PageEvictionPolicy
    scan_resistant_then_lfu : PageEvictionPolicy
    hint_aware : PageEvictionPolicy
    learned : LearnedPolicy Double → PageEvictionPolicy
    loaded_learned : Weights Double → PageEvictionPolicy

  with_learned : ℕ × LearnedPolicy Double → ℕ × PageEvictionPolicy
  with_learned (victim, state) = (victim, learned state)

  unfoldable pub choose_victim :
      WorkloadHint → Option AccessObserver → PageEvictionPolicy → List ℕ → ℕ × PageEvictionPolicy
  unfolding with_learned
  choose_victim g observer lru pids = (Eviction.lru pids, lru)
  choose_victim g observer scan_resistant pids =
      (Eviction.scan_resistant observer pids, scan_resistant)
  choose_victim g observer lfu pids = (Eviction.lfu observer pids, lfu)
  choose_victim g observer scan_resistant_then_lfu pids =
      (Eviction.scan_resistant_then_lfu observer pids, scan_resistant_then_lfu)
  choose_victim g observer hint_aware pids = (Eviction.hint_aware g observer pids, hint_aware)
  choose_victim g observer (learned p) pids = with_learned (Learned.learned doubles observer p pids)
  choose_victim g observer (loaded_learned w) pids =
      (Learned.loaded_learned doubles observer w pids, loaded_learned w)

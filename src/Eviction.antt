-- ===== src/Eviction.antt =====
-- src/cache/eviction_policy.h and eviction_policy.cpp: which page a full page cache gives up.
-- A policy reads the observer (`none` for a null pointer) and the hint of the calling thread.
pub mod Doubles
pub mod Learned
pub mod Least
pub mod Members
pub mod Agreement
pub mod Policy
use mathlib.Core.List.{head?}
use mathlib.Core.Option
use adaptive_query_accelerat.Common.{
  ℕ, ◌+◌, ◌-◌, Bool, true, false, ◌&&◌, ◌||◌, Option, none, some, List, [], ◌∷◌, ◌==◌,
  if◌then◌else◌, ltb, u32,
}
use adaptive_query_accelerat.Observer.{
  AccessObserver, get_recent_page_ids, get_access_count, get_capacity,
}
use adaptive_query_accelerat.WorkloadHint.{WorkloadHint, point_lookup, scan, get_workload_hint}

-- `set.count(x) != 0`
unfoldable pub contains : ℕ → List ℕ → Bool
contains x [] = false
contains x (y ∷ ys) = y == x || contains x ys

-- `pid + 1` is a `uint32_t` and wraps; `pid - 1` is read only for `pid > 0`.
unfoldable pub in_run : List ℕ → ℕ → Bool
unfolding contains
in_run recent pid = contains (u32 (pid + 1)) recent || (ltb 0 pid && contains (pid - 1) recent)

-- The page ids of the whole ring.
abbrev pub recent_set : AccessObserver → List ℕ
recent_set o = get_recent_page_ids o (get_capacity o)

abbrev pub front : List ℕ → ℕ
front [] = 0
front (pid ∷ pids) = pid

unfoldable pub lru : List ℕ → ℕ
lru pids = front pids

-- `for (pid : …) if (in_run) return pid; return ….front();`
unfoldable pub first_in_run : List ℕ → ℕ → List ℕ → ℕ
first_in_run recent fallback [] = fallback
first_in_run recent fallback (pid ∷ pids) =
    let rest = first_in_run recent fallback pids in if in_run recent pid then pid else rest

unfoldable pub scan_resistant : Option AccessObserver → List ℕ → ℕ
unfolding first_in_run
scan_resistant observer [] = 0
scan_resistant none (pid ∷ pids) = pid
scan_resistant (some o) (pid ∷ pids) = first_in_run (recent_set o) pid (pid ∷ pids)

-- The loop over the candidates behind the first, with the best so far.
unfoldable pub least_from : AccessObserver → ℕ → ℕ → List ℕ → ℕ
least_from o victim min_count [] = victim
least_from o victim min_count (pid ∷ pids) =
    let c = get_access_count o pid in
    let kept = least_from o victim min_count pids in
    let better = least_from o pid c pids in if ltb c min_count then better else kept

-- `candidates.front()` and the loop behind it.
unfoldable pub least_used : AccessObserver → List ℕ → ℕ
unfolding least_from
least_used o [] = 0
least_used o (pid ∷ pids) = least_from o pid (get_access_count o pid) pids

unfoldable pub lfu : Option AccessObserver → List ℕ → ℕ
unfolding least_used
lfu observer [] = 0
lfu none (pid ∷ pids) = pid
lfu (some o) (pid ∷ pids) = least_used o (pid ∷ pids)

-- The candidates that are in a run, in order.
unfoldable pub scan_candidates : List ℕ → List ℕ → List ℕ
scan_candidates recent [] = []
scan_candidates recent (pid ∷ pids) =
    let rest = scan_candidates recent pids in if in_run recent pid then pid ∷ rest else rest

abbrev pub or_all : List ℕ → List ℕ → List ℕ
or_all pids [] = pids
or_all pids (c ∷ cs) = c ∷ cs

-- A round of the loop over those candidates behind the first, on the victim and the count so far.
abbrev pub combined_round : AccessObserver → ℕ × ℕ → ℕ → ℕ × ℕ
combined_round o (victim, min_count) pid =
    let c = get_access_count o pid in if ltb c min_count then (pid, c) else (victim, min_count)

unfoldable pub combined_loop : AccessObserver → ℕ × ℕ → List ℕ → ℕ
combined_loop o so_far [] = so_far.0
combined_loop o so_far (pid ∷ pids) = combined_loop o (combined_round o so_far pid) pids

-- `candidates.front()` is read only if there is a candidate.
unfoldable pub combined_among : AccessObserver → List ℕ → ℕ
unfolding combined_loop
combined_among o [] = 0
combined_among o (pid ∷ pids) = combined_loop o (pid, get_access_count o pid) pids

unfoldable pub scan_resistant_then_lfu : Option AccessObserver → List ℕ → ℕ
unfolding scan_candidates combined_among
scan_resistant_then_lfu observer [] = 0
scan_resistant_then_lfu none (pid ∷ pids) = pid
scan_resistant_then_lfu (some o) (pid ∷ pids) =
    combined_among o (or_all (pid ∷ pids) (scan_candidates (recent_set o) (pid ∷ pids)))

-- The loop under the scan hint, with what it returns from inside, if it does.
unfoldable pub hint_scan_loop : List ℕ → List ℕ → Option ℕ
unfolding contains
hint_scan_loop recent [] = none
hint_scan_loop recent (pid ∷ pids) =
    let rest = hint_scan_loop recent pids in
    let found = contains (u32 (pid + 1)) recent || (ltb 0 pid && contains (pid - 1) recent) in
    if found then some pid else rest

-- A round of the loop under any other hint, on the victim and the count so far.
abbrev pub hint_count_round : AccessObserver → ℕ × ℕ → ℕ → ℕ × ℕ
hint_count_round o (victim, min_count) pid =
    let c = get_access_count o pid in if ltb c min_count then (pid, c) else (victim, min_count)

unfoldable pub hint_count_loop : AccessObserver → ℕ × ℕ → List ℕ → ℕ
hint_count_loop o so_far [] = so_far.0
hint_count_loop o so_far (pid ∷ pids) = hint_count_loop o (hint_count_round o so_far pid) pids

-- The two halves of `HintAwarePageEvictionPolicy::choose_victim`, behind its test for no candidate.
abbrev hint_branch : WorkloadHint → Option AccessObserver → ℕ → List ℕ → ℕ
hint_branch scan none pid pids = pid
hint_branch scan (some o) pid pids = Option.get_or (hint_scan_loop (recent_set o) (pid ∷ pids)) pid
hint_branch point_lookup none pid pids = pid
hint_branch point_lookup (some o) pid pids = hint_count_loop o (pid, get_access_count o pid) pids

unfoldable pub hint_aware : WorkloadHint → Option AccessObserver → List ℕ → ℕ
unfolding hint_scan_loop hint_count_loop
hint_aware g observer [] = 0
hint_aware g observer (pid ∷ pids) = hint_branch (get_workload_hint g) observer pid pids

-- `LruRecordEvictionPolicy::choose_victim`: an index into the keys, least recently used first.
unfoldable pub lru_record : List (List ℕ) → ℕ
lru_record keys = 0

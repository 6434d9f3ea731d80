-- ===== src/Tests.antt =====
-- The properties at concrete inputs, where their hypotheses hold: here the observer, the hint and
-- the policies.
pub mod Caches
pub mod Formats
pub mod Storage
pub mod Databases
pub mod Opened
use adaptive_query_accelerat.Common.{
  ◌++◌, u64, ℕ, ◌+◌, ◌*◌, ◌≡◌, refl, none, some, [], ◌∷◌, true, false, arith, ltb, ℕ_discrete, IsIn,
  reverse,
}
use adaptive_query_accelerat.WorkloadHint.{
  point_lookup, scan, enter, run_action, in_scope, set_to, done, next, scope_restores,
}
use adaptive_query_accelerat.Observer
use adaptive_query_accelerat.Observer.{
  PageAccessEvent, AccessObserver, record_page_access, get_last_index_in_recent, get_access_count,
}
use adaptive_query_accelerat.Observer.Refine.{events, events-record, push}
use adaptive_query_accelerat.Observer.Counts.{Counted, record-Counted}
use adaptive_query_accelerat.Observer.Queries.{get_last_index-position, position_or}
use adaptive_query_accelerat.Observer.History.{Tracks, run, run-init-Tracks}
use adaptive_query_accelerat.Eviction.{
  front, or_all, scan_candidates, recent_set, lfu, scan_resistant, scan_resistant_then_lfu,
  hint_aware,
}
use adaptive_query_accelerat.Eviction.Doubles.{Doubles}
use adaptive_query_accelerat.Eviction.Learned.{
  init_learned, LearnedPolicy, learned, loaded_learned, feedback,
}
use adaptive_query_accelerat.Eviction.Least.{IsFirstLeast, least_used_policies}
use adaptive_query_accelerat.Eviction.Agreement.{
  scan_resistant-front, hint_aware-agrees, learned-loaded,
}
use adaptive_query_accelerat.Eviction.Policy.{PageEvictionPolicy, choose_victim}
use adaptive_query_accelerat.Eviction.Members.{choose_victim-IsIn}
use adaptive_query_accelerat.LruCache
use adaptive_query_accelerat.LruCache.{LruCache}
use adaptive_query_accelerat.LruCache.Valid as RecordCacheValid
use adaptive_query_accelerat.LruCache.Methods.{Got, get-Got}
use adaptive_query_accelerat.LruCache.Put.{Stored, put-Stored}
use adaptive_query_accelerat.MappedFile
use adaptive_query_accelerat.MappedFile.{MappedFile, Result, ok, thrown}
use adaptive_query_accelerat.PageCache
use adaptive_query_accelerat.PageCache.{PageCache, unpin_page}
use adaptive_query_accelerat.PageCache.Interface.{Policies}
use adaptive_query_accelerat.PageCache.Valid.{IsMapped}
use adaptive_query_accelerat.PageCache.Valid as PageCacheValid
use adaptive_query_accelerat.PageCache.Init as PageCacheInit
use adaptive_query_accelerat.PageCache.Evict.{Evicts, evict-Evicts}
use adaptive_query_accelerat.PageCache.Fetch.{Fetches, get_page_internal-Fetches}
use adaptive_query_accelerat.PageCache.Unpin.{Unpinned, unpin_page-Unpinned}
use adaptive_query_accelerat.PageCache.Handles.{
  PageHandle, Pool, Steps, start, then_step, fetches, destroys, fetch_page, destroy,
}
use adaptive_query_accelerat.PageCache.Reach.{IsPinned, reached-IsPinned}
use adaptive_query_accelerat.PageCache.Supply.{page_eviction_policies}
use adaptive_query_accelerat.BPlusTree.{
  LeafPage, InternalPage, pos, minus_one, leaf_page, internal_page, lookup,
}
use adaptive_query_accelerat.BPlusTree.Leaf.{Inserts, insert-Inserts}
use adaptive_query_accelerat.BPlusTree.Internal.{IsChild, lookup-IsChild}
use adaptive_query_accelerat.Wal.{WalRecord, append, replay, read, read_record}
use adaptive_query_accelerat.Wal.Replay.{
  appended, encode_all, last_lsn, append-replay, replay-broken,
}

abbrev access : ℕ → PageAccessEvent
access page_id = record { page_id = page_id; is_hit = false }

abbrev pub observed : AccessObserver
observed = run (access 4 ∷ access 5 ∷ access 4 ∷ []) (Observer.init 2)

run-init-Tracks_example :
    Tracks 2
      (run (access 4 ∷ access 5 ∷ access 4 ∷ []) (Observer.init 2))
      (access 4 ∷ access 5 ∷ access 4 ∷ [])
run-init-Tracks_example = run-init-Tracks 2 (access 4 ∷ access 5 ∷ access 4 ∷ []) (omega arith)

tracked : Tracks 2 observed (access 4 ∷ access 5 ∷ access 4 ∷ [])
tracked = run-init-Tracks 2 (access 4 ∷ access 5 ∷ access 4 ∷ []) (omega arith)

events-record_example :
    events (record_page_access observed 7 true)
    ≡ push observed.capacity (events observed) (record { page_id = 7; is_hit = true })
events-record_example = events-record 7 true (tracked.valid)

record-Counted_example : Counted (record_page_access observed 7 true)
record-Counted_example = record-Counted (tracked.valid) (tracked.counted) 7 true

get_last_index-position_example :
    get_last_index_in_recent observed 5
    ≡ position_or observed.capacity 5 (reverse (events observed)) 0
get_last_index-position_example = get_last_index-position (tracked.valid) 5

least_used_policies_example :
    IsFirstLeast (get_access_count observed) (4 ∷ 5 ∷ []) (lfu (some observed) (4 ∷ 5 ∷ []))
    × IsFirstLeast
        (get_access_count observed)
        (or_all (4 ∷ 5 ∷ []) (scan_candidates (recent_set observed) (4 ∷ 5 ∷ [])))
        (scan_resistant_then_lfu (some observed) (4 ∷ 5 ∷ []))
least_used_policies_example = least_used_policies observed 4 (5 ∷ [])

scan_resistant-front_example :
    scan_resistant (some observed) (9 ∷ 4 ∷ 5 ∷ [])
    ≡ front (or_all (9 ∷ 4 ∷ 5 ∷ []) (scan_candidates (recent_set observed) (9 ∷ 4 ∷ 5 ∷ [])))
scan_resistant-front_example = scan_resistant-front observed (9 ∷ 4 ∷ 5 ∷ [])

hint_aware-agrees_example :
    (hint_aware scan (some observed) (9 ∷ 4 ∷ []) ≡ scan_resistant (some observed) (9 ∷ 4 ∷ []))
    × (hint_aware point_lookup (some observed) (9 ∷ 4 ∷ []) ≡ lfu (some observed) (9 ∷ 4 ∷ []))
hint_aware-agrees_example = hint_aware-agrees (some observed) (9 ∷ 4 ∷ [])

-- Whole numbers in the place of `double`.
abbrev pub whole_numbers : Doubles
whole_numbers = record {
  Double = ℕ;
  of_nat = λ n. n;
  neg = λ x. x;
  add = λ x y. x + y;
  mul = λ x y. x + y;
  div = λ x y. x;
  less = ltb;
}

abbrev learning : LearnedPolicy ℕ
learning = init_learned whole_numbers 10 1

learned-loaded_example :
    (learned whole_numbers (some observed) learning (9 ∷ 4 ∷ [])).0
    ≡ loaded_learned whole_numbers
        (some observed)
        (feedback whole_numbers observed learning).weights
        (9 ∷ 4 ∷ [])
learned-loaded_example = learned-loaded whole_numbers observed learning (9 ∷ 4 ∷ [])

choose_victim-IsIn_example :
    IsIn
      (choose_victim whole_numbers scan
        (some observed)
        (PageEvictionPolicy.learned learning)
        (9 ∷ 4 ∷ [])).0
      (9 ∷ 4 ∷ [])
choose_victim-IsIn_example =
    choose_victim-IsIn whole_numbers scan (some observed) (PageEvictionPolicy.learned learning) 9
      (4 ∷ [])

scope_restores_example :
    ((enter point_lookup).1 ≡ scan)
    × (run_action (in_scope (next (set_to point_lookup) done)) point_lookup ≡ point_lookup)
scope_restores_example = scope_restores (next (set_to point_lookup) done) point_lookup

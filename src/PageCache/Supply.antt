-- ===== src/PageCache/Supply.antt =====
-- The eviction policies of the source, as the page cache takes them.
use adaptive_query_accelerat.WorkloadHint.{WorkloadHint}
use adaptive_query_accelerat.Eviction.Doubles.{Doubles}
use adaptive_query_accelerat.Eviction.Members.{choose_victim-IsIn}
use adaptive_query_accelerat.Eviction.Policy.{PageEvictionPolicy, choose_victim}
use adaptive_query_accelerat.PageCache.Interface.{Policies}

-- Under a thread's hint, one for the whole run of the cache, while `HintAwarePageEvictionPolicy`
-- reads the hint of the calling thread at each choice.
abbrev pub page_eviction_policies : Doubles → WorkloadHint → Policies
page_eviction_policies doubles g = record {
  Policy = PageEvictionPolicy doubles;
  choose_victim = choose_victim doubles g;
  choose_victim-IsIn = choose_victim-IsIn doubles g;
}

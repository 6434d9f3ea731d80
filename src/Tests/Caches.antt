-- ===== src/Tests/Caches.antt =====
-- The properties of the two caches at concrete inputs.
use adaptive_query_accelerat.Common.{
  get_elem?, ℕ, ◌≡◌, refl, none, some, [], ◌∷◌, true, arith, ℕ_discrete,
}
use adaptive_query_accelerat.WorkloadHint.{point_lookup}
use adaptive_query_accelerat.Eviction.Policy.{PageEvictionPolicy}
use adaptive_query_accelerat.LruCache
use adaptive_query_accelerat.LruCache.{LruCache}
use adaptive_query_accelerat.LruCache.Valid as RecordCacheValid
use adaptive_query_accelerat.LruCache.Methods.{Got, get-Got}
use adaptive_query_accelerat.LruCache.Put.{Stored, put-Stored}
use adaptive_query_accelerat.MappedFile
use adaptive_query_accelerat.MappedFile.{MappedFile, Result, ok, thrown}
use adaptive_query_accelerat.PageCache
use adaptive_query_accelerat.PageCache.{PageCache, unpin_page}
use adaptive_query_accelerat.PageCache.Interface.{Policies}
use adaptive_query_accelerat.PageCache.Valid.{IsMapped}
use adaptive_query_accelerat.PageCache.Valid as PageCacheValid
use adaptive_query_accelerat.PageCache.Init as PageCacheInit
use adaptive_query_accelerat.PageCache.Evict.{Evicts, evict-Evicts}
use adaptive_query_accelerat.PageCache.Fetch.{Fetches, get_page_internal-Fetches}
use adaptive_query_accelerat.PageCache.Flush.{Flushed, flush_page-Flushed}
use adaptive_query_accelerat.PageCache.View.{content}
use adaptive_query_accelerat.StorageEngine.Allocate.{with_page_in, with_page_in-IsValid}
use adaptive_query_accelerat.PageCache.Unpin.{Unpinned, unpin_page-Unpinned}
use adaptive_query_accelerat.PageCache.Handles.{
  PageHandle, Pool, Steps, start, then_step, fetches, destroys, fetch_page, destroy,
}
use adaptive_query_accelerat.PageCache.Reach.{IsPinned, reached-IsPinned}
use adaptive_query_accelerat.PageCache.Supply.{page_eviction_policies}
use adaptive_query_accelerat.Tests.{whole_numbers, observed}

abbrev no_records : LruCache ℕ ℕ
no_records = LruCache.init 1

stored_first : (c : LruCache ℕ ℕ) × Stored ℕ_discrete none no_records 7 70 c
stored_first =
    put-Stored ℕ_discrete none 7 70 (RecordCacheValid.init-IsValid ℕ_discrete 1 (omega arith))

put-Stored_example : (c : LruCache ℕ ℕ) × Stored ℕ_discrete none (stored_first.0) 8 80 c
put-Stored_example = put-Stored ℕ_discrete none 8 80 (stored_first.1.valid)

get-Got_example : (c : LruCache ℕ ℕ) × Got ℕ_discrete (stored_first.0) 7 c
get-Got_example = get-Got ℕ_discrete 7 (stored_first.1.valid)

-- A file of two pages, each a number, and a cache of one frame over it.
abbrev two_pages : MappedFile ℕ
two_pages = record { pages = 10 ∷ 20 ∷ []; mapped = true; file_size = 8192; page_count = 2 }

two_pages-IsMapped : IsMapped two_pages
two_pages-IsMapped = record { mapped = λ h. refl; counted = refl; below_4gb = omega arith }

abbrev policies : Policies
policies = page_eviction_policies whole_numbers point_lookup

abbrev one_frame : PageCache policies ℕ
one_frame = PageCache.init policies ℕ 0 two_pages 1 (some observed) (some PageEvictionPolicy.lfu)

one_frame-IsValid : PageCacheValid.IsValid one_frame
one_frame-IsValid =
    PageCacheInit.init-IsValid policies 0 two_pages 1 (some observed) (some PageEvictionPolicy.lfu)
      two_pages-IsMapped

get_page_internal-Fetches_example : Fetches one_frame 1
unfolding PageCache.init
get_page_internal-Fetches_example = get_page_internal-Fetches one_frame-IsValid 1 (omega arith)

evict-Evicts_example : Evicts one_frame
evict-Evicts_example = evict-Evicts one_frame-IsValid

unpin_page-Unpinned_example : Unpinned one_frame 1 (unpin_page policies 1 one_frame)
unpin_page-Unpinned_example = unpin_page-Unpinned one_frame-IsValid 1

-- A program that fetches page 1, drops the handle, and fetches page 0 into the only frame.
abbrev unobserved : PageCache policies ℕ
unobserved = PageCache.init policies ℕ 0 two_pages 1 none none

abbrev cache_of : Result (PageCache policies ℕ) PageHandle → PageCache policies ℕ
cache_of (ok h c) = c
cache_of (thrown e c) = c
cache_of Result.undefined = unobserved

abbrev first_fetched : PageCache policies ℕ
first_fetched = cache_of (fetch_page policies 1 unobserved)

abbrev first_dropped : PageCache policies ℕ
first_dropped = destroy policies (some (record { page_id = 1; frame = 0 })) first_fetched

abbrev second_fetched : PageCache policies ℕ
second_fetched = cache_of (fetch_page policies 0 first_dropped)

abbrev before_program : Pool policies ℕ
before_program = record { cache = unobserved; vars = [] }

abbrev after_program : Pool policies ℕ
after_program = record {
  cache = second_fetched;
  vars = some (record { page_id = 0; frame = 0 }) ∷ none ∷ [];
}

program : Steps before_program after_program
unfolding fetch_page destroy PageCache.init MappedFile.load MappedFile.get_page MappedFile.store
    ℕ_discrete
program =
    then_step
      (then_step
        (then_step start
          (fetches 1 (record { page_id = 1; frame = 0 }) first_fetched (omega arith) refl))
        (destroys 0 (some (record { page_id = 1; frame = 0 })) refl))
      (fetches 0 (record { page_id = 0; frame = 0 }) second_fetched (omega arith) refl)

reached-IsPinned_example : IsPinned after_program
reached-IsPinned_example =
    reached-IsPinned policies 0 two_pages 1 none none two_pages-IsMapped after_program program

after_program-IsPinned : IsPinned after_program
after_program-IsPinned =
    reached-IsPinned policies 0 two_pages 1 none none two_pages-IsMapped after_program program

-- Page 0, changed in its frame.
abbrev changed : PageCache policies ℕ
changed = with_page_in second_fetched 0 99

changed-IsValid : PageCacheValid.IsValid changed
changed-IsValid = with_page_in-IsValid second_fetched 0 99 after_program-IsPinned.valid

flush_page-Flushed_example : Flushed changed 0
flush_page-Flushed_example = flush_page-Flushed changed-IsValid 0

-- The change was not in the file, and the flush brings it there.
changed_before : get_elem? changed.file.pages 0 ≡ some 10
unfolding fetch_page destroy PageCache.init MappedFile.load MappedFile.get_page MappedFile.store
    ℕ_discrete
changed_before = refl

changed_after : content changed 0 ≡ some 99
unfolding fetch_page destroy PageCache.init MappedFile.load MappedFile.get_page MappedFile.store
    ℕ_discrete
changed_after = refl

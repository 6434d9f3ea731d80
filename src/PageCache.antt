-- ===== src/PageCache.antt =====
-- src/storage/page_cache.h, page_cache.cpp and page_handle.h: the buffer pool over a mapped file.
-- A method holds the mutex and so is one step. A frame is an index into `pool_`; a `Page` is the
-- frame that it points into. The policy and the observer are pointers and may be null (`none`).
pub mod Interface
pub mod Valid
pub mod Evict
pub mod Frames
pub mod Fetch
pub mod View
pub mod Flush
pub mod Unpin
pub mod Progress
pub mod Init
pub mod Supply
pub mod Handles
pub mod Reach
use mathlib.Core.Option
use adaptive_query_accelerat.Common.{
  ℕ, zero, suc, ◌+◌, ◌-◌, Bool, true, false, Option, none, some, List, [], ◌∷◌, reverse, ltb, ◌==◌,
  if◌then◌else◌, u64, length, get_elem?, get_or, set, replicate, ℕ_discrete,
}
use adaptive_query_accelerat.Common.Maps.{Map, find, erase, assign}
use adaptive_query_accelerat.Common.Linked.{Linked, no_nodes, remove_at, push_front, values}
use adaptive_query_accelerat.Common.Linked.Laws.{address_of}
use adaptive_query_accelerat.MappedFile
use adaptive_query_accelerat.MappedFile.{
  MappedFile, Result, ok, thrown, undefined, pool_full, Pointer, null, ◌>>=◌,
}
use adaptive_query_accelerat.Observer.{AccessObserver, record_page_access}
use Interface.{Policies}

-- `for (i = 0; i < capacity; ++i) free_frames_.push_back(i);`
unfoldable pub frames_from : ℕ → ℕ → List ℕ
frames_from zero i = []
frames_from (suc n) i = i ∷ frames_from n (i + 1)

module _ (policies : Policies) (P : Type 0) where
  open policies use {Policy, choose_victim}

  pub record PageCache : Type 0 where
    pub file : MappedFile P
    pub pool : List P
    pub pin_counts : List ℕ
    pub page_map : Map ℕ ℕ
    pub lru_list : Linked ℕ
    pub lru_iters : Map ℕ ℕ
    pub free_frames : List ℕ
    pub hits : ℕ
    pub misses : ℕ
    pub observer : Option AccessObserver
    pub eviction_policy : Option Policy

  -- The constructor; `RawPage()` gives the pool's first pages.
  unfoldable pub init : P → MappedFile P → ℕ → Option AccessObserver → Option Policy → PageCache
  unfolding frames_from
  init fresh_page file capacity observer eviction_policy = record {
    file = file;
    pool = replicate capacity fresh_page;
    pin_counts = replicate capacity 0;
    page_map = [];
    lru_list = no_nodes;
    lru_iters = [];
    free_frames = frames_from capacity 0;
    hits = 0;
    misses = 0;
    observer = observer;
    eviction_policy = eviction_policy;
  }

abbrev pub observe : ℕ → Bool → Option AccessObserver → Option AccessObserver
observe page_id is_hit none = none
observe page_id is_hit (some o) = some (record_page_access o page_id is_hit)

-- `page_map_[pid]`: a missing key is inserted with frame 0.
abbrev pub insert_default : Option ℕ → ℕ → Map ℕ ℕ → Map ℕ ℕ
insert_default none pid m = assign ℕ_discrete pid 0 m
insert_default (some frame) pid m = m

abbrev pub frame_at : ℕ → Map ℕ ℕ → ℕ
frame_at pid m = Option.get_or (find ℕ_discrete pid m) 0

-- The loop of `evict`, over the pages from the least recently used on.
unfoldable pub unpinned_from : List ℕ → Map ℕ ℕ → List ℕ → List ℕ × Map ℕ ℕ
unfolding find assign
unpinned_from pins m [] = ([], m)
unpinned_from pins m (pid ∷ pids) =
    let (rest, m') = unpinned_from pins (insert_default (find ℕ_discrete pid m) pid m) pids in
    (if get_or pins (frame_at pid m) 0 == 0 then pid ∷ rest else rest, m')

-- `if (disk_data) memcpy(disk_data, &pool_[frame], PAGE_SIZE);`
abbrev pub write_back_to : {P : Type 0} → Pointer → MappedFile P → Option P → Option (MappedFile P)
write_back_to null file page = some file
write_back_to target file none = none
write_back_to target file (some page) = MappedFile.store file target page

abbrev pub write_back : {P : Type 0} → MappedFile P → ℕ → Option P → Option (MappedFile P)
write_back file pid page = write_back_to (MappedFile.get_page file pid) file page

-- What `lru_list_.erase(find(…))` leaves.
abbrev pub drop_node : Option ℕ → Linked ℕ → Linked ℕ
drop_node none l = l
drop_node (some it) l = record l { nodes = remove_at it l.nodes }

module _ (policies : Policies) where
  open policies use {Policy, choose_victim}

  abbrev pub choose : Option Policy → Option AccessObserver → ℕ → List ℕ → ℕ × Option Policy
  choose none observer pid pids = (pid, none)
  choose (some p) observer pid pids =
      let (victim, p') = choose_victim observer p (pid ∷ pids) in (victim, some p')

module _ (policies : Policies) {P : Type 0} where
  open policies use {Policy}

  -- The body of `touch_page`; without an iterator, `lru_list_.erase` gets a singular one.
  abbrev pub touch_at : ℕ → Option ℕ → PageCache policies P → Option (PageCache policies P)
  touch_at page_id none c = none
  touch_at page_id (some it) c = some (record c {
    lru_list = push_front page_id (record c.lru_list { nodes = remove_at it c.lru_list.nodes });
    lru_iters = assign ℕ_discrete page_id c.lru_list.fresh c.lru_iters;
  })

  unfoldable pub touch_page : ℕ → PageCache policies P → Option (PageCache policies P)
  unfolding find remove_at assign
  touch_page page_id c = touch_at page_id (find ℕ_discrete page_id c.lru_iters) c

  -- The rest of `evict`, on the file as the write-back leaves it and on the victim's node.
  abbrev pub remove_with :
      PageCache policies P
      → Map ℕ ℕ
      → ℕ
      → Option Policy
      → ℕ
      → Option (MappedFile P)
      → Option ℕ
      → Result (PageCache policies P) ℕ
  remove_with c m victim policy frame none place = undefined
  remove_with c m victim policy frame (some file) place = ok frame (record c {
    file = file;
    page_map = erase ℕ_discrete victim m;
    lru_iters = erase ℕ_discrete victim c.lru_iters;
    lru_list = drop_node place c.lru_list;
    eviction_policy = policy;
  })

  abbrev pub remove_victim :
      PageCache policies P → Map ℕ ℕ → ℕ × Option Policy → Result (PageCache policies P) ℕ
  remove_victim c m (victim, policy) =
      let frame = frame_at victim m in
      remove_with c m victim policy frame (write_back c.file victim (get_elem? c.pool frame))
        (address_of ℕ_discrete (λ p. p) victim c.lru_list.nodes)

  abbrev pub evict_from : PageCache policies P → List ℕ × Map ℕ ℕ → Result (PageCache policies P) ℕ
  evict_from c ([], m) = thrown pool_full (record c { page_map = m })
  evict_from c (pid ∷ pids, m) =
      remove_victim c m (choose policies c.eviction_policy c.observer pid pids)

  unfoldable pub evict : PageCache policies P → Result (PageCache policies P) ℕ
  unfolding unpinned_from erase address_of remove_at
  evict c = evict_from c (unpinned_from c.pin_counts c.page_map (reverse (values c.lru_list.nodes)))

  -- A free frame if there is one, and otherwise the frame of a victim.
  abbrev pub take_from : List ℕ → PageCache policies P → Result (PageCache policies P) ℕ
  take_from [] c = evict c
  take_from (frame ∷ frames) c = ok frame (record c { free_frames = frames })

  -- The copy into the frame and the entries for the page; it starts with one pin.
  abbrev pub admit_page : ℕ → ℕ → PageCache policies P → Option P → Result (PageCache policies P) ℕ
  admit_page page_id frame c none = undefined
  admit_page page_id frame c (some page) = ok frame (record c {
    pool = set c.pool frame page;
    page_map = assign ℕ_discrete page_id frame c.page_map;
    lru_list = push_front page_id c.lru_list;
    lru_iters = assign ℕ_discrete page_id c.lru_list.fresh c.lru_iters;
    pin_counts = set c.pin_counts frame 1;
  })

  abbrev pub admit : ℕ → ℕ × PageCache policies P → Result (PageCache policies P) ℕ
  admit page_id (frame, c) =
      admit_page page_id frame c (MappedFile.load c.file (MappedFile.get_page c.file page_id))

  -- What a hit does first, and what a miss does first.
  abbrev pub count_hit : ℕ → PageCache policies P → PageCache policies P
  count_hit page_id c = record c {
    hits = u64 (c.hits + 1);
    observer = observe page_id true c.observer;
  }

  abbrev pub count_miss : ℕ → PageCache policies P → PageCache policies P
  count_miss page_id c = record c {
    misses = u64 (c.misses + 1);
    observer = observe page_id false c.observer;
  }

  -- `pin_counts_[frame]++`; a pool has fewer handles than an `int` counts.
  abbrev pub pin : ℕ → PageCache policies P → PageCache policies P
  pin frame c = record c { pin_counts = set c.pin_counts frame (get_or c.pin_counts frame 0 + 1) }

  abbrev pub pin_touched : ℕ → Option (PageCache policies P) → Result (PageCache policies P) ℕ
  pin_touched page_id none = undefined
  pin_touched page_id (some c) =
      ok (frame_at page_id c.page_map) (pin (frame_at page_id c.page_map) c)

  abbrev pub get_at : ℕ → Option ℕ → PageCache policies P → Result (PageCache policies P) ℕ
  get_at page_id (some frame) c = pin_touched page_id (touch_page page_id (count_hit page_id c))
  get_at page_id none c = take_from c.free_frames (count_miss page_id c) >>= admit page_id

  -- The result is the frame that the new handle's `Page` points into.
  unfoldable pub get_page_internal : ℕ → PageCache policies P → Result (PageCache policies P) ℕ
  unfolding find touch_page evict
  get_page_internal page_id c = get_at page_id (find ℕ_discrete page_id c.page_map) c

  abbrev pub unpin_at : Option ℕ → PageCache policies P → PageCache policies P
  unpin_at none c = c
  unpin_at (some frame) c =
      if ltb 0 (get_or c.pin_counts frame 0)
      then record c { pin_counts = set c.pin_counts frame (get_or c.pin_counts frame 0 - 1) }
      else c

  unfoldable pub unpin_page : ℕ → PageCache policies P → PageCache policies P
  unfolding find
  unpin_page page_id c = unpin_at (find ℕ_discrete page_id c.page_map) c

  -- `flush_page` copies without a test of the pointer.
  abbrev pub flushed_to :
      PageCache policies P → Option (MappedFile P) → Result (PageCache policies P) Unit
  flushed_to c none = undefined
  flushed_to c (some file) = ok tt (record c { file = file })

  abbrev pub flush_from : ℕ → PageCache policies P → Option P → Result (PageCache policies P) Unit
  flush_from page_id c none = undefined
  flush_from page_id c (some page) =
      flushed_to c (MappedFile.store c.file (MappedFile.get_page c.file page_id) page)

  abbrev pub flush_at : ℕ → Option ℕ → PageCache policies P → Result (PageCache policies P) Unit
  flush_at page_id none c = ok tt c
  flush_at page_id (some frame) c = flush_from page_id c (get_elem? c.pool frame)

  unfoldable pub flush_page : ℕ → PageCache policies P → Result (PageCache policies P) Unit
  unfolding find
  flush_page page_id c = flush_at page_id (find ℕ_discrete page_id c.page_map) c

  -- The loop of `flush_all`, over the entries of `page_map_`.
  unfoldable pub write_all : Map ℕ ℕ → List P → MappedFile P → Option (MappedFile P)
  write_all [] pool file = some file
  write_all ((pid, frame) ∷ m) pool file = elim (write_back file pid (get_elem? pool frame)) [
    | none ↦ none
    | some file' ↦ write_all m pool file'
  ]

  abbrev pub sync_file :
      PageCache policies P → Result (MappedFile P) Unit → Result (PageCache policies P) Unit
  sync_file c (ok a file) = ok a (record c { file = file })
  sync_file c (thrown e file) = thrown e (record c { file = file })
  sync_file c undefined = undefined

  unfoldable pub flush_all : Bool → PageCache policies P → Result (PageCache policies P) Unit
  unfolding write_all
  flush_all synced c = elim (write_all c.page_map c.pool c.file) [
    | none ↦ undefined
    | some file ↦ sync_file c (MappedFile.flush synced file)
  ]

  abbrev pub pin_count_at : Option ℕ → PageCache policies P → ℕ
  pin_count_at none c = 0
  pin_count_at (some frame) c = get_or c.pin_counts frame 0

  unfoldable pub get_pin_count : ℕ → PageCache policies P → ℕ
  unfolding find
  get_pin_count page_id c = pin_count_at (find ℕ_discrete page_id c.page_map) c

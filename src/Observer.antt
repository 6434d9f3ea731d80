-- ===== src/Observer.antt =====
-- src/observer: the ring of recent page accesses (access_observer.h, access_observer.cpp).
-- The mutex makes each method atomic, so a method is a function on the state.
pub mod Window
pub mod Refine
pub mod Queries
pub mod Counts
pub mod History
use mathlib.Core.Option
use adaptive_query_accelerat.Common.{
  ℕ, zero, suc, ◌+◌, ◌-◌, ◌%◌, ◌^◌, Bool, false, Option, none, some, List, [], ◌∷◌, map, ◌==◌,
  if◌then◌else◌, ltb, leb, u64, min, get_or, set, replicate, ℕ_discrete,
}
use adaptive_query_accelerat.Page.{RecordId}
use adaptive_query_accelerat.Common.Maps.{Map, find, erase, assign}

pub record PageAccessEvent : Type 0 where
  pub page_id : ℕ
  pub is_hit : Bool

-- `ring_` holds `capacity_` events, and `head_` is the slot that the next event takes.
pub record AccessObserver : Type 0 where
  pub capacity : ℕ
  pub ring : List PageAccessEvent
  pub page_access_counts : Map ℕ ℕ
  pub head : ℕ
  pub size : ℕ
  pub total_recorded : ℕ

-- The members' initialisers, `page_id{0}` and `is_hit{false}`.
abbrev pub no_event : PageAccessEvent
no_event = record { page_id = 0; is_hit = false }

abbrev pub effective_capacity : ℕ → ℕ
effective_capacity ring_capacity = if ltb 0 ring_capacity then ring_capacity else 1

pub init : ℕ → AccessObserver
init ring_capacity = record {
  capacity = effective_capacity ring_capacity;
  ring = replicate (effective_capacity ring_capacity) no_event;
  page_access_counts = [];
  head = 0;
  size = 0;
  total_recorded = 0;
}

-- The event that the next one overwrites leaves the counts; a count that falls to 0 is erased.
abbrev pub drop_count : Option ℕ → ℕ → Map ℕ ℕ → Map ℕ ℕ
drop_count none old_id counts = counts
drop_count (some c) old_id counts =
    if leb c 1 then erase ℕ_discrete old_id counts else assign ℕ_discrete old_id (c - 1) counts

abbrev pub forget_oldest : AccessObserver → Map ℕ ℕ
forget_oldest o =
    let old_id = (get_or o.ring o.head no_event).page_id in
    let dropped =
      drop_count (find ℕ_discrete old_id o.page_access_counts) old_id o.page_access_counts in
    if o.size == o.capacity then dropped else o.page_access_counts

-- `counts[page_id]++`: a missing key counts from 0.
abbrev pub add_count : ℕ → Map ℕ ℕ → Map ℕ ℕ
add_count page_id counts =
    assign ℕ_discrete page_id (u64 (Option.get_or (find ℕ_discrete page_id counts) 0 + 1)) counts

pub record_page_access : AccessObserver → ℕ → Bool → AccessObserver
unfolding find erase assign ℕ_discrete
record_page_access o page_id is_hit = record o {
  ring = set o.ring o.head (record { page_id = page_id; is_hit = is_hit });
  page_access_counts = add_count page_id (forget_oldest o);
  head = u64 (o.head + 1) % o.capacity;
  size = if ltb o.size o.capacity then u64 (o.size + 1) else o.size;
  total_recorded = u64 (o.total_recorded + 1);
}

pub record_record_access : AccessObserver → RecordId → AccessObserver
unfolding record_page_access
record_record_access o rid = record_page_access o rid.page_id false

-- The loop of `get_recent_page_accesses`: the rounds left, and the slot to read next.
pub collect : List PageAccessEvent → ℕ → ℕ → ℕ → List PageAccessEvent
collect ring capacity zero idx = []
collect ring capacity (suc n) idx =
    get_or ring idx no_event ∷ collect ring capacity n (u64 (idx + 1) % capacity)

-- `(head_ + capacity_ - size_) % capacity_`, in `size_t`.
abbrev pub oldest : AccessObserver → ℕ
oldest o = u64 (u64 (o.head + o.capacity) + 2 ^ 64 - o.size) % o.capacity

pub get_recent_page_accesses : AccessObserver → ℕ → List PageAccessEvent
unfolding collect
get_recent_page_accesses o n =
    if min n o.size == 0 then [] else collect o.ring o.capacity (min n o.size) (oldest o)

pub get_recent_page_ids : AccessObserver → ℕ → List ℕ
unfolding get_recent_page_accesses
get_recent_page_ids o n = map (λ e. e.page_id) (get_recent_page_accesses o n)

pub get_access_count : AccessObserver → ℕ → ℕ
unfolding find ℕ_discrete
get_access_count o page_id = Option.get_or (find ℕ_discrete page_id o.page_access_counts) 0

-- `(head_ + capacity_ - 1 - i) % capacity_`: the slot of the event that `i` later ones follow.
abbrev pub slot_back : AccessObserver → ℕ → ℕ
slot_back o i = u64 (u64 (u64 (o.head + o.capacity) + 2 ^ 64 - 1) + 2 ^ 64 - i) % o.capacity

-- The loop of `get_last_index_in_recent`, by the rounds left.
pub last_index_from : AccessObserver → ℕ → ℕ → ℕ → ℕ
last_index_from o page_id zero i = o.capacity
last_index_from o page_id (suc n) i =
    let rest = last_index_from o page_id n (i + 1) in
    if (get_or o.ring (slot_back o i) no_event).page_id == page_id then i else rest

pub get_last_index_in_recent : AccessObserver → ℕ → ℕ
unfolding last_index_from
get_last_index_in_recent o page_id =
    if o.size == 0 then o.capacity else last_index_from o page_id o.size 0

abbrev pub get_total_recorded : AccessObserver → ℕ
get_total_recorded o = o.total_recorded

abbrev pub get_size : AccessObserver → ℕ
get_size o = o.size

abbrev pub get_capacity : AccessObserver → ℕ
get_capacity o = o.capacity

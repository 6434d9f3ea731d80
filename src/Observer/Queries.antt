-- ===== src/Observer/Queries.antt =====
-- What the read methods return, in terms of the events that the ring holds.
use mathlib.Core.List.{reverse-append}
use native.Mathlib.Nat.{mod-lt, zero-add, add-mod_right}
use adaptive_query_accelerat.Common.{
  ℕ, zero, suc, ◌+◌, ◌-◌, ◌%◌, ◌^◌, ◌<◌, ◌≡◌, inl, inr, refl, sym, ap, List, [], ◌∷◌, arith, u64,
  min, take, take-min, reverse, ◌==◌, if◌then◌else◌,
}
use adaptive_query_accelerat.Observer.{
  PageAccessEvent, AccessObserver, collect, oldest, slot_back, get_recent_page_accesses,
  last_index_from, get_last_index_in_recent,
}
use adaptive_query_accelerat.Observer.Window.{collect_snoc, take-collect}
use adaptive_query_accelerat.Observer.Refine.{
  IsValid, events, length-events, oldest_full, oldest_filling,
}

-- The position of the first event of a page, `absent` if there is none.
unfoldable pub position_or : ℕ → ℕ → List PageAccessEvent → ℕ → ℕ
position_or absent page_id [] i = absent
position_or absent page_id (e ∷ w) i =
    let rest = position_or absent page_id w (i + 1) in if e.page_id == page_id then i else rest

take_size : (n : ℕ) (o : AccessObserver) → take (min n o.size) (events o) ≡ take n (events o)
take_size n o =
    rw (ap (λ k. take (min n k) (events o)) (sym (length-events o))) (take-min n (events o))

-- The call returns the `n` oldest events of the ring, oldest first, and all of them if there are
-- fewer.
pub get_recent-take :
    (o : AccessObserver) (n : ℕ) → get_recent_page_accesses o n ≡ take n (events o)
unfolding get_recent_page_accesses
get_recent-take o n =
    ground (arith, take-collect o.ring o.capacity (min n o.size) o.size (oldest o), take_size n o)

module _ {o : AccessObserver} (v : IsValid o) where
  oldest_in : oldest o < o.capacity
  oldest_in = mod-lt _ v.positive

  -- The slot that is read `i` rounds back holds the event with `i` later ones.
  slot_back_lem : (n i : ℕ) → suc n + i ≡ o.size → slot_back o i ≡ (oldest o + n) % o.capacity
  slot_back_lem n i e = elim v.filling [
    | inl full ↦
        let start = oldest_full v full in
        let unwrapped : u64 (u64 (u64 (o.head + o.capacity) + 2 ^ 64 - 1) + 2 ^ 64 - i)
            ≡ o.head + n =
          omega arith in
        rw (unwrapped, start)
    | inr partial ↦
        let start = oldest_filling v partial in
        let unwrapped : u64 (u64 (u64 (o.head + o.capacity) + 2 ^ 64 - 1) + 2 ^ 64 - i)
            ≡ n + o.capacity =
          omega arith in
        rw (unwrapped, start, add-mod_right, zero-add)
  ]

  last_index_from-position :
      (page_id n i : ℕ)
      → n + i ≡ o.size
      → last_index_from o page_id n i
        ≡ position_or o.capacity page_id (reverse (collect o.ring o.capacity n (oldest o))) i
  unfolding last_index_from position_or collect
  last_index_from-position page_id zero i e = refl
  last_index_from-position page_id (suc n) i e =
      let ih = last_index_from-position page_id n (i + 1) (omega arith) in
      rw (
        collect_snoc o.ring o.capacity v.small n (oldest o) oldest_in,
        reverse-append,
        slot_back_lem n i e,
        ih,
      )

  -- On a valid ring, the call returns how many events are more recent than the latest one of the
  -- page, and the capacity if the ring holds none of the page.
  pub get_last_index-position :
      (page_id : ℕ)
      → get_last_index_in_recent o page_id ≡ position_or o.capacity page_id (reverse (events o)) 0
  unfolding get_last_index_in_recent position_or
  get_last_index-position page_id =
      ground (arith, last_index_from-position page_id o.size 0 (omega arith))

-- ===== src/Observer/Refine.antt =====
-- The ring holds the last `capacity` events of the history, oldest first, and the counts are the
-- numbers of their occurrences.
use native.Mathlib.Nat.{mod_self, mod-eq_of_lt}
use adaptive_query_accelerat.Common.{
  ℕ, suc, ◌+◌, ◌-◌, ◌%◌, ◌^◌, ◌≤◌, ◌<◌, ◌≡◌, ◌⊎◌, refl, sym, ◌∙◌, ap, ap₂, Bool, List, [], ◌∷◌,
  ◌++◌, arith, u64, length, tail, length-set, length-replicate, ◌==◌, if◌then◌else◌, ℕ_discrete,
}
use adaptive_query_accelerat.Observer.{
  PageAccessEvent, no_event, AccessObserver, collect, oldest, init, record_page_access,
  effective_capacity,
}
use adaptive_query_accelerat.Observer.Window.{length-collect, collect_full, collect_filling}

-- The shape of the ring. Until it is full, the events fill the slots from 0 on.
pub record IsValid (o : AccessObserver) : Type 0 where
  pub positive : 0 < o.capacity
  pub small : o.capacity < 2 ^ 63
  pub slots : length o.ring ≡ o.capacity
  pub head_in : o.head < o.capacity
  pub size_in : o.size ≤ o.capacity
  pub filling : (o.size ≡ o.capacity) ⊎ (o.head ≡ o.size)

-- The events that the ring holds, oldest first.
abbrev pub events : AccessObserver → List PageAccessEvent
events o = collect o.ring o.capacity o.size (oldest o)

-- What one more event does to a list of at most `cap` events.
unfoldable pub push : ℕ → List PageAccessEvent → PageAccessEvent → List PageAccessEvent
push cap w e = if length w == cap then tail w ++ e ∷ [] else w ++ e ∷ []

pub init-IsValid : (n : ℕ) → n < 2 ^ 63 → IsValid (init n)
unfolding init
init-IsValid n h = ground (arith, length-replicate (effective_capacity n) no_event)

pub record-IsValid :
    {o : AccessObserver} (page_id : ℕ) (is_hit : Bool)
    → IsValid o
    → IsValid (record_page_access o page_id is_hit)
unfolding record_page_access
record-IsValid {o} page_id is_hit v =
    ground (arith, length-set o.ring o.head e, mod-eq_of_lt {n = o.head + 1} {m = o.capacity})
  where
    e : PageAccessEvent
    e = record { page_id = page_id; is_hit = is_hit }

pub oldest_full : {o : AccessObserver} → IsValid o → o.size ≡ o.capacity → oldest o ≡ o.head
oldest_full {o} v e =
    let unwrapped : u64 (u64 (o.head + o.capacity) + 2 ^ 64 - o.size) ≡ o.head = omega arith in
    rw unwrapped (mod-eq_of_lt v.head_in)

pub oldest_filling : {o : AccessObserver} → IsValid o → o.head ≡ o.size → oldest o ≡ 0
oldest_filling {o} v e =
    let unwrapped : u64 (u64 (o.head + o.capacity) + 2 ^ 64 - o.size) ≡ o.capacity = omega arith in
    rw (unwrapped, mod_self)

pub length-events : (o : AccessObserver) → length (events o) ≡ o.size
length-events o = length-collect o.ring o.capacity o.size (oldest o)

-- A full ring is read from the head, one that is filling up from slot 0.
pub events_from_head :
    {o : AccessObserver} (m : ℕ)
    → IsValid o
    → o.size ≡ o.capacity
    → suc m ≡ o.capacity
    → events o ≡ collect o.ring o.capacity (suc m) o.head
events_from_head {o} m v full e =
    ap₂ (collect o.ring o.capacity) (full ∙ sym e) (oldest_full v full)

events_from_zero :
    (o : AccessObserver) (n : ℕ)
    → oldest o ≡ 0
    → o.size ≡ n
    → events o ≡ collect o.ring o.capacity n 0
events_from_zero o n zeroed e = ap₂ (collect o.ring o.capacity) e zeroed

module _ {o : AccessObserver} (page_id : ℕ) (is_hit : Bool) (v : IsValid o) where
  abbrev event : PageAccessEvent
  event = record { page_id = page_id; is_hit = is_hit }

  abbrev next : AccessObserver
  next = record_page_access o page_id is_hit

  oldest-next : o.size < o.capacity → oldest next ≡ 0
  unfolding record_page_access
  oldest-next h =
      let v' = record-IsValid page_id is_hit v in
      let wraps : u64 (o.head + 1) ≡ o.head + 1 = omega arith in
      elim (ℕ_discrete (o.size + 1) o.capacity) [
        | yes p ↦
            let full : next.size ≡ next.capacity = ground arith in
            let last : o.head + 1 ≡ o.capacity = ground arith in
            oldest_full v' full ∙ rw (wraps, last, mod_self)
        | no p ↦
            let at_end : u64 (o.head + 1) % o.capacity ≡ o.head + 1 =
              rw wraps (mod-eq_of_lt (ground arith)) in
            oldest_filling v' (ground (arith, at_end))
      ]

  events_when_full : o.size ≡ o.capacity → events next ≡ tail (events o) ++ event ∷ []
  unfolding record_page_access
  events_when_full full =
      let m = o.capacity - 1 in
      let e : suc m ≡ o.capacity = omega arith in
      let size_full : next.size ≡ o.capacity = ground arith in
      events_from_head m (record-IsValid page_id is_hit v) size_full e
      ∙ collect_full o.ring o.capacity v.small event v.slots m o.head e v.head_in
      ∙ ap (λ w. tail w ++ event ∷ []) (sym (events_from_head m v full e))

  events_when_filling : o.size < o.capacity → events next ≡ events o ++ event ∷ []
  unfolding record_page_access
  events_when_filling h =
      let at : o.head ≡ o.size = ground arith in
      let grown : next.size ≡ suc o.size = ground arith in
      events_from_zero next (suc o.size) (oldest-next h) grown
      ∙ rw at (collect_filling o.ring o.capacity v.small event v.slots o.size h)
      ∙ ap (λ w. w ++ event ∷ []) (sym (events_from_zero o o.size (oldest_filling v at) refl))

  -- On a valid ring, recording an access appends its event to those that the ring holds, without
  -- the oldest one if the ring is full.
  pub events-record : events next ≡ push o.capacity (events o) event
  unfolding push
  events-record = ground (arith, v, length-events o, events_when_full, events_when_filling)

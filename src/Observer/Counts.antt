-- ===== src/Observer/Counts.antt =====
-- `page_access_counts_` against the events that the ring holds.
use mathlib.Core.Option
use adaptive_query_accelerat.Common.{
  ℕ, suc, ◌+◌, ◌-◌, ◌^◌, ◌≤◌, ◌<◌, ◌≡◌, refl, sym, ◌∙◌, ap, Bool, Option, none, some, List, [], ◌∷◌,
  ◌++◌, arith, length, get_or, tail, ◌==◌, if◌then◌else◌, ℕ_discrete, length-tail-le,
}
use adaptive_query_accelerat.Common.Maps.{Map, find, find-erase, find-assign}
use adaptive_query_accelerat.Observer.{
  PageAccessEvent, no_event, AccessObserver, collect, drop_count, forget_oldest, add_count,
  record_page_access, get_access_count, init,
}
use adaptive_query_accelerat.Observer.Refine.{
  IsValid, events, events_from_head, length-events, events-record, push,
}

-- How many of the events are of the page.
unfoldable pub occurrences : ℕ → List PageAccessEvent → ℕ
occurrences page_id [] = 0
occurrences page_id (e ∷ w) = occurrences page_id w + (if e.page_id == page_id then 1 else 0)

pub occurrences-append :
    (page_id : ℕ) (w : List PageAccessEvent) (e : PageAccessEvent)
    → occurrences page_id (w ++ e ∷ [])
      ≡ occurrences page_id w + (if e.page_id == page_id then 1 else 0)
unfolding occurrences
occurrences-append page_id [] e = refl
occurrences-append page_id (f ∷ w) e = omega (arith, occurrences-append page_id w e)

occurrences-le : (page_id : ℕ) (w : List PageAccessEvent) → occurrences page_id w ≤ length w
unfolding occurrences
occurrences-le page_id [] = omega arith
occurrences-le page_id (e ∷ w) = ground (arith, occurrences-le page_id w)

-- `it == end() ? 0 : it->second`
abbrev count_in : Map ℕ ℕ → ℕ → ℕ
count_in counts page_id = Option.get_or (find ℕ_discrete page_id counts) 0

-- Each page's count is the number of its events.
abbrev pub Counted : AccessObserver → Type 0
Counted o = (page_id : ℕ) → get_access_count o page_id ≡ occurrences page_id (events o)

count_in-add :
    (counts : Map ℕ ℕ) (page_id j : ℕ)
    → count_in counts page_id < 2 ^ 63
    → count_in (add_count page_id counts) j ≡ count_in counts j + (if page_id == j then 1 else 0)
count_in-add counts page_id j h = rw find-assign (ground arith)

count_in-drop :
    (counts : Map ℕ ℕ) (old j : ℕ)
    → count_in (drop_count (find ℕ_discrete old counts) old counts) j
      ≡ count_in counts j - (if old == j then 1 else 0)
count_in-drop counts old j = by_count (find ℕ_discrete old counts) refl
  where
    by_count :
        (r : Option ℕ)
        → find ℕ_discrete old counts ≡ r
        → count_in (drop_count r old counts) j ≡ count_in counts j - (if old == j then 1 else 0)
    by_count none e = ground arith
    by_count (some c) e = ground (
      arith,
      find-erase {V = ℕ} ℕ_discrete old j counts,
      find-assign {V = ℕ} ℕ_discrete old j (c - 1) counts,
    )

module _ {o : AccessObserver} (v : IsValid o) (c : Counted o) where
  -- The events that stay.
  abbrev kept : List PageAccessEvent
  kept = if o.size == o.capacity then tail (events o) else events o

  count_in-forget_oldest : (j : ℕ) → count_in (forget_oldest o) j ≡ occurrences j kept
  unfolding occurrences get_access_count collect
  count_in-forget_oldest j = elim (ℕ_discrete o.size o.capacity) [
    | yes p ↦
        let m = o.capacity - 1 in
        let e : suc m ≡ o.capacity = omega arith in
        let w = events_from_head m v p e in
        ground (
          arith,
          count_in-drop o.page_access_counts (get_or o.ring o.head no_event).page_id j,
          c j,
          w,
        )
    | no p ↦ ground (arith, c j)
  ]

  push-kept : (e : PageAccessEvent) → push o.capacity (events o) e ≡ kept ++ e ∷ []
  unfolding push
  push-kept e = rw (length-events o) (ground arith)

  kept_small : length kept < 2 ^ 63
  kept_small = ground (arith, v, length-events o, length-tail-le (events o))

  -- On a valid ring where every page's count is the number of its events, recording keeps that so.
  pub record-Counted : (page_id : ℕ) (is_hit : Bool) → Counted (record_page_access o page_id is_hit)
  unfolding get_access_count
  record-Counted page_id is_hit j =
      let e : PageAccessEvent = record { page_id = page_id; is_hit = is_hit } in
      let counted : count_in (forget_oldest o) page_id < 2 ^ 63 =
        omega (arith, count_in-forget_oldest page_id, occurrences-le page_id kept, kept_small) in
      unfold record_page_access in
      count_in-add (forget_oldest o) page_id j counted
      ∙ ap (λ k. k + (if page_id == j then 1 else 0)) (count_in-forget_oldest j)
      ∙ sym (
          ap (occurrences j) (events-record page_id is_hit v ∙ push-kept e)
          ∙ occurrences-append j kept e)

pub init-Counted : (n : ℕ) → Counted (init n)
unfolding init get_access_count occurrences collect
init-Counted n page_id = refl

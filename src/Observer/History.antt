-- ===== src/Observer/History.antt =====
-- A run of accesses from a fresh observer.
use adaptive_query_accelerat.Common.{
  ℕ, suc, ◌-◌, ◌^◌, ◌<◌, ◌≡◌, refl, sym, ◌∙◌, ap₂, List, [], ◌∷◌, ◌++◌, arith, length, drop-nil,
  true, false, take_last, length-take_last, length-append, drop-append, tail-drop, ◌==◌,
  append_assoc, append-nil,
}
use native.Mathlib.Decide.{dec_lt}
use adaptive_query_accelerat.Observer.{
  PageAccessEvent, AccessObserver, init, record_page_access, effective_capacity, collect,
}
use adaptive_query_accelerat.Observer.Refine.{
  IsValid, init-IsValid, record-IsValid, events, events-record, push,
}
use adaptive_query_accelerat.Observer.Counts.{Counted, init-Counted, record-Counted}

-- The calls of `record_page_access`, in order.
unfoldable pub run : List PageAccessEvent → AccessObserver → AccessObserver
run [] o = o
run (e ∷ es) o = run es (record_page_access o e.page_id e.is_hit)

-- The last events of a history, when one more comes.
push-take_last :
    (cap : ℕ) (h : List PageAccessEvent) (e : PageAccessEvent)
    → 0 < cap
    → push cap (take_last cap h) e ≡ take_last cap (h ++ e ∷ [])
unfolding push
push-take_last cap h e pos = elim (dec_lt (length h) cap) [
  | yes p ↦
      let room : length (take_last cap h) == cap ≡ false = ground (arith, length-take_last cap h) in
      let all : length h - cap ≡ 0 = omega arith in
      let all' : length (h ++ e ∷ []) - cap ≡ 0 = omega (arith, length-append h (e ∷ [])) in
      rw room (rw (all, all'))
  | no p ↦
      let full : length (take_last cap h) == cap ≡ true = ground (arith, length-take_last cap h) in
      let k = length h - cap in
      let more : length (h ++ e ∷ []) - cap ≡ suc k = omega (arith, length-append h (e ∷ [])) in
      rw (full, more, drop-append (suc k) h (e ∷ []) (omega arith)) (rw (tail-drop k h))
]

pub record Tracks (cap : ℕ) (o : AccessObserver) (h : List PageAccessEvent) : Type 0 where
  pub valid : IsValid o
  pub capacity : o.capacity ≡ cap
  pub window : events o ≡ take_last cap h
  pub counted : Counted o

capacity-record :
    (o : AccessObserver) (e : PageAccessEvent)
    → (record_page_access o e.page_id e.is_hit).capacity ≡ o.capacity
unfolding record_page_access
capacity-record o e = refl

record-Tracks :
    {cap : ℕ} {o : AccessObserver} {h : List PageAccessEvent} (e : PageAccessEvent)
    → Tracks cap o h
    → Tracks cap (record_page_access o e.page_id e.is_hit) (h ++ e ∷ [])
record-Tracks {cap} {o} {h} e t = record {
  valid = record-IsValid e.page_id e.is_hit t.valid;
  capacity = capacity-record o e ∙ t.capacity;
  window =
      events-record e.page_id e.is_hit t.valid
      ∙ ap₂ (λ c w. push c w e) t.capacity t.window
      ∙ push-take_last cap h e (ground (arith, t));
  counted = record-Counted t.valid t.counted e.page_id e.is_hit;
}

run-Tracks :
    {cap : ℕ} (es : List PageAccessEvent) {o : AccessObserver} {h : List PageAccessEvent}
    → Tracks cap o h
    → Tracks cap (run es o) (h ++ es)
unfolding run
run-Tracks [] {o} {h} t = rw append-nil t
run-Tracks (e ∷ es) {o} {h} t =
    rw (← append_assoc h (e ∷ []) es) (run-Tracks es (record-Tracks e t))

-- After any accesses from a new observer, made for fewer than 2^63 events, the ring holds the last
-- ones, as many as its capacity, oldest first; its shape is valid, and every page's count is the
-- number of its events in the ring.
pub run-init-Tracks :
    (n : ℕ) (es : List PageAccessEvent)
    → n < 2 ^ 63
    → Tracks (effective_capacity n) (run es (init n)) es
run-init-Tracks n es h = run-Tracks es {h = []} (record {
  valid = init-IsValid n h;
  capacity = unfold init in refl;
  window = unfold init collect in sym (drop-nil PageAccessEvent (0 - effective_capacity n));
  counted = init-Counted n;
})

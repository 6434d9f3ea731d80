-- ===== src/PageCache/Init.antt =====
-- The cache as the constructor leaves it: every frame is free.
use adaptive_query_accelerat.Common.{
  ℕ, zero, ◌+◌, ◌≤◌, ◌<◌, ◌≡◌, ◌≢◌, refl, sym, ◌∙◌, Option, All, All-weaken, arith, length,
  length-replicate, replicate, get_elem?, [], suc,
}
use adaptive_query_accelerat.Common.Maps.{find}
use adaptive_query_accelerat.Common.Linked.Laws.{address_of}
use adaptive_query_accelerat.MappedFile.{MappedFile}
use adaptive_query_accelerat.Observer.{AccessObserver}
use adaptive_query_accelerat.PageCache.{init, frames_from, get_pin_count}
use adaptive_query_accelerat.PageCache.Interface.{Policies}
use adaptive_query_accelerat.PageCache.Valid.{Cached, Distinct, IsMapped, IsValid}
use adaptive_query_accelerat.PageCache.View.{content, pins}

frames_from-range : (n i : ℕ) → All (λ f. (i ≤ f) × (f < i + n)) (frames_from n i)
unfolding frames_from
frames_from-range zero i = tt
frames_from-range (suc n) i = (
  (omega arith, omega arith),
  All-weaken (λ f. (i + 1 ≤ f) × (f < i + 1 + n)) (λ f. (i ≤ f) × (f < i + suc n))
      (λ f h. let (a, b) = h in (omega arith, omega arith)) (frames_from n (i + 1))
      (frames_from-range n (i + 1)),
)

frames_from-Distinct : (n i : ℕ) → Distinct (frames_from n i)
unfolding frames_from
frames_from-Distinct zero i = tt
frames_from-Distinct (suc n) i = (
  All-weaken (λ f. (i + 1 ≤ f) × (f < i + 1 + n)) (λ f. f ≢ i)
      (λ f h e. let (a, b) = h in omega arith) (frames_from n (i + 1))
      (frames_from-range n (i + 1)),
  frames_from-Distinct n (i + 1),
)

module _ (policies : Policies) {P : Type 0} where
  pub init-IsValid :
      (fresh_page : P) (file : MappedFile P) (capacity : ℕ) (observer : Option AccessObserver)
      (policy : Option (policies.Policy))
      → IsMapped file
      → IsValid (init policies P fresh_page file capacity observer policy)
  unfolding init find address_of
  init-IsValid fresh_page file capacity observer policy m = record {
    counts = length-replicate capacity 0 ∙ sym (length-replicate capacity fresh_page);
    shape = record { below = tt; addresses = tt; keys = tt; indexed = λ k. refl };
    listed = λ page_id frame h. cc;
    mapped = λ page_id it h. cc;
    in_pool = λ page_id frame h. cc;
    injective = λ p q frame h. cc;
    free_in =
        All-weaken (λ f. (0 ≤ f) × (f < 0 + capacity))
          (λ f. f < length (replicate capacity fresh_page))
          (λ f h. let (a, b) = h in omega (arith, length-replicate capacity fresh_page))
          (frames_from capacity 0) (frames_from-range capacity 0);
    free_unused =
        All-weaken (λ f. (0 ≤ f) × (f < 0 + capacity))
          (λ f.
            (page_id : ℕ)
            → ¬ (Cached (init policies P fresh_page file capacity observer policy) page_id f))
          (λ f h page_id e. cc) (frames_from capacity 0) (frames_from-range capacity 0);
    free_distinct = frames_from-Distinct capacity 0;
    on_file = λ page_id frame h. cc;
    file = m;
  }

  pub pins-init :
      (fresh_page : P) (file : MappedFile P) (capacity : ℕ) (observer : Option AccessObserver)
      (policy : Option (policies.Policy)) (page_id : ℕ)
      → pins (init policies P fresh_page file capacity observer policy) page_id ≡ 0
  unfolding init find get_pin_count
  pins-init fresh_page file capacity observer policy page_id = refl

  pub init-free_frames :
      (fresh_page : P) (file : MappedFile P) (capacity : ℕ) (observer : Option AccessObserver)
      (policy : Option (policies.Policy))
      → 0 < capacity
      → (init policies P fresh_page file capacity observer policy).free_frames ≢ []
  unfolding init frames_from
  init-free_frames fresh_page file (suc n) observer policy h = λ e. cc
  init-free_frames fresh_page file zero observer policy h = absurd (omega arith)

  pub content-init :
      (fresh_page : P) (file : MappedFile P) (capacity : ℕ) (observer : Option AccessObserver)
      (policy : Option (policies.Policy)) (page_id : ℕ)
      → content (init policies P fresh_page file capacity observer policy) page_id
        ≡ get_elem? file.pages page_id
  unfolding init find
  content-init fresh_page file capacity observer policy page_id = refl

  pub file-init :
      (fresh_page : P) (file : MappedFile P) (capacity : ℕ) (observer : Option AccessObserver)
      (policy : Option (policies.Policy))
      → (init policies P fresh_page file capacity observer policy).file ≡ file
  unfolding init
  file-init fresh_page file capacity observer policy = refl

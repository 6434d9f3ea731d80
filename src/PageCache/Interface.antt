-- ===== src/PageCache/Interface.antt =====
-- What the page cache needs of an eviction policy.
use adaptive_query_accelerat.Common.{ℕ, Option, List, ◌∷◌, IsIn}
use adaptive_query_accelerat.Observer.{AccessObserver}

-- A policy may keep a state and reads the observer. Offered a page, it gives up one of those
-- offered.
pub record Policies : Type 1 where
  pub Policy : Type 0
  pub choose_victim : Option AccessObserver → Policy → List ℕ → ℕ × Policy
  pub choose_victim-IsIn :
      (observer : Option AccessObserver) (p : Policy) (pid : ℕ) (pids : List ℕ)
      → IsIn (choose_victim observer p (pid ∷ pids)).0 (pid ∷ pids)

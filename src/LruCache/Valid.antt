-- ===== src/LruCache/Valid.antt =====
-- The representation invariant of the record cache: the list and the index agree.
use adaptive_query_accelerat.Common.{ℕ, ◌≤◌, ◌<◌, refl, arith, length}
use adaptive_query_accelerat.Common.Maps.{find}
use adaptive_query_accelerat.Common.Linked.Laws.{address_of}
use adaptive_query_accelerat.LruCache.{LruCache, init}
use adaptive_query_accelerat.Common.Linked.Shape.{Shape}

module _ {K V : Type 0} (dec : Discrete K) where
  pub record IsValid (c : LruCache K V) : Type 0 where
    pub positive : 0 < c.capacity
    pub bounded : length c.list.nodes ≤ c.capacity
    pub shape : Shape dec (λ e. e.key) c.list.fresh c.index c.list.nodes

  pub init-IsValid : (n : ℕ) → 0 < n → IsValid (init n)
  unfolding init find address_of
  init-IsValid n h = record {
    positive = h;
    bounded = omega arith;
    shape = record { below = tt; addresses = tt; keys = tt; indexed = λ k. refl };
  }

-- ===== src/Eviction/Doubles.antt =====
-- The operations of `double` that the learned policies use. Nothing is assumed of them: the order
-- may be that of IEEE numbers, with NaN.
use adaptive_query_accelerat.Common.{ℕ, Bool}

pub record Doubles : Type 1 where
  pub Double : Type 0
  pub of_nat : ℕ → Double
  pub neg : Double → Double
  pub add : Double → Double → Double
  pub mul : Double → Double → Double
  pub div : Double → Double → Double
  pub less : Double → Double → Bool

-- ===== src/Floats.antt =====
-- The float64 arithmetic that the rate limiter and the retries use. It belongs to Go, so it is a
-- parameter: a record of operations, with no laws. A theorem that needs a law takes it as a
-- hypothesis.
use backend_assessment.Prelude.{ℕ, Bool, ℤ}

pub record Float64 : Type 1 where
  pub F : Type 0
  -- `float64(n)` of an integer, and `time.Duration(x)` of a float.
  pub of_int : ℤ → F
  pub to_int : F → ℤ
  -- The literal for n / d, rounded to the nearest float.
  pub ratio : ℕ → ℕ → F
  pub add : F → F → F
  pub sub : F → F → F
  pub mul : F → F → F
  pub div : F → F → F
  -- `x < y` and `x <= y`, which are false if one is not a number.
  pub lt : F → F → Bool
  pub le : F → F → Bool
  -- `d.Seconds()` of a duration.
  pub seconds : ℤ → F

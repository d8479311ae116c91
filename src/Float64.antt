-- ===== src/Float64.antt =====
-- Go's `float64`, as the program uses it. The type and its operations are a parameter, since antt
-- has no floats; comparisons are the Boolean tests of the language, false where an operand is NaN.
pub mod Whole
use throttle.Prelude.{◌≡◌, Bool, true, if◌then◌else◌}
use throttle.Int.{ℤ}

pub record Float64 (F : Type 0) : Type 0 where
  pub zero : F
  pub one : F
  pub add : F → F → F
  pub sub : F → F → F
  pub mul : F → F → F
  pub div : F → F → F
  pub lt : F → F → Bool
  pub le : F → F → Bool
  -- The conversion `float64(n)`.
  pub of_int : ℤ → F
  -- The conversion `int(x)`, which cuts towards zero.
  pub to_int : F → ℤ
  -- `d.Seconds()`
  pub seconds : ℤ → F

-- ===== src/Float64/Whole.antt =====
-- An instance of the floats for tests: whole numbers without bounds, NaN or infinities.
use throttle.Int.{ℤ, pos, ◌+ℤ◌, ◌-ℤ◌, ◌*ℤ◌, ltb_ℤ, leb_ℤ}
use throttle.Int64.{quot}
use throttle.Time.{second}
use throttle.Float64.{Float64}

abbrev pub whole_numbers : Float64 ℤ
whole_numbers = record {
  zero = pos 0;
  one = pos 1;
  add = λ a b. a +ℤ b;
  sub = λ a b. a -ℤ b;
  mul = λ a b. a *ℤ b;
  div = quot;
  lt = ltb_ℤ;
  le = leb_ℤ;
  of_int = λ n. n;
  to_int = λ n. n;
  seconds = λ d. quot d second;
}

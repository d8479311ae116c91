-- ===== src/Int64.antt =====
-- Go's signed machine integers: an `int64` (and an `int`, which has 64 bits on the platforms the
-- program is built for) is the integer that it stands for, and every operation wraps around.
-- A `time.Duration` is such an `int64`, in nanoseconds.
use throttle.Prelude.{
  ℕ, suc, ◌+◌, ◌-◌, ◌*◌, ◌/◌, ◌%◌, ◌^◌, ◌≤◌, ◌<◌, ◌≡◌, Bool, false, Option, none, some, arith, ltb,
  leb, if◌then◌else◌,
}
use native.Mathlib.Nat.{div-le_self}
use throttle.Int.{◌≤ℤ◌, ℤ, pos, negsuc, pos_part, neg_part, sub_ℕ, ◌+ℤ◌, ◌-ℤ◌, ◌*ℤ◌}

abbrev pub two_64 : ℕ
two_64 = 2 ^ 64

abbrev pub two_63 : ℕ
two_63 = 2 ^ 63

-- The bit pattern of an integer, modulo 2 ^ 64.
abbrev pub word : ℤ → ℕ
word (pos n) = n % two_64
word (negsuc n) = two_64 - 1 - n % two_64

-- The integer that a bit pattern stands for.
abbrev pub signed : ℕ → ℤ
signed w = if ltb w two_63 then pos w else negsuc (two_64 - 1 - w)

unfoldable pub wrap64 : ℤ → ℤ
wrap64 z = signed (word z)

abbrev pub IsInt64 : ℤ → Type 0
IsInt64 z = (pos_part z < two_63) × (neg_part z ≤ two_63)

-- Between two `int64`s there are only `int64`s.
pub IsInt64-between : (lo z hi : ℤ) → IsInt64 lo → IsInt64 hi → lo ≤ℤ z → z ≤ℤ hi → IsInt64 z
IsInt64-between lo (pos n) hi h k a b = ground arith
IsInt64-between lo (negsuc n) hi h k a b = ground arith

pub wrap64-eq : (z : ℤ) → IsInt64 z → wrap64 z ≡ z
unfolding wrap64
wrap64-eq (pos n) h = ground arith
wrap64-eq (negsuc n) h = ground arith

pub wrap64-IsInt64 : (z : ℤ) → IsInt64 (wrap64 z)
unfolding wrap64
wrap64-IsInt64 (pos n) = ground arith
wrap64-IsInt64 (negsuc n) = ground arith

unfoldable pub add64 : ℤ → ℤ → ℤ
add64 a b = wrap64 (a +ℤ b)

unfoldable pub sub64 : ℤ → ℤ → ℤ
sub64 a b = wrap64 (a -ℤ b)

unfoldable pub mul64 : ℤ → ℤ → ℤ
mul64 a b = wrap64 (a *ℤ b)

pub add64-eq : (a b : ℤ) → IsInt64 (a +ℤ b) → add64 a b ≡ a +ℤ b
unfolding add64
add64-eq a b h = wrap64-eq (a +ℤ b) h

pub sub64-eq : (a b : ℤ) → IsInt64 (a -ℤ b) → sub64 a b ≡ a -ℤ b
unfolding sub64
sub64-eq a b h = wrap64-eq (a -ℤ b) h

pub add64-pos : (a b : ℕ) → a + b < two_63 → add64 (pos a) (pos b) ≡ pos (a + b)
unfolding ◌+ℤ◌
add64-pos a b h = ground (arith, add64-eq (pos a) (pos b))

pub sub64-pos : (a b : ℕ) → b ≤ a → a < two_63 → sub64 (pos a) (pos b) ≡ pos (a - b)
unfolding ◌-ℤ◌
sub64-pos a b le h = ground (arith, sub64-eq (pos a) (pos b))

pub sub64-negative : (a b : ℕ) → a < b → b < two_63 → sub64 (pos a) (pos b) ≡ negsuc (b - a - 1)
unfolding ◌-ℤ◌
sub64-negative a b lt h = ground (arith, sub64-eq (pos a) (pos b))

pub mul-pos_pos : (a b : ℕ) → pos a *ℤ pos b ≡ pos (a * b)
unfolding ◌*ℤ◌
mul-pos_pos a b = ground arith

pub mul64-pos : (a b : ℕ) → a * b < two_63 → mul64 (pos a) (pos b) ≡ pos (a * b)
unfolding mul64
mul64-pos a b h = rw (mul-pos_pos a b) (wrap64-eq (pos (a * b)) (h, omega arith))

-- Go's `/` cuts towards zero; a zero divisor is a run-time panic, here `none`.
abbrev pub quot : ℤ → ℤ → ℤ
quot (pos a) (pos b) = pos (a / b)
quot (pos a) (negsuc b) = sub_ℕ 0 (a / suc b)
quot (negsuc a) (pos b) = sub_ℕ 0 (suc a / b)
quot (negsuc a) (negsuc b) = pos (suc a / suc b)

abbrev pub is_zero : ℤ → Bool
is_zero (pos n) = leb n 0
is_zero (negsuc n) = false

unfoldable pub div64 : ℤ → ℤ → Option ℤ
div64 a b = if is_zero b then none else some (wrap64 (quot a b))

pub div64-pos : (a b : ℕ) → a < two_63 → div64 (pos a) (pos (suc b)) ≡ some (pos (a / suc b))
unfolding div64
div64-pos a b h =
    ground (arith, wrap64-eq (pos (a / suc b)) (omega (arith, div-le_self a (suc b)), omega arith))

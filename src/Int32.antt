-- ===== src/Int32.antt =====
-- Go's `int32`: the conversion from a wider integer keeps the low 32 bits.
use throttle.Prelude.{◌-◌, ◌%◌, ◌^◌, ◌≤◌, ◌<◌, ℕ, ◌≡◌, arith, if◌then◌else◌, ltb}
use throttle.Int.{ℤ, pos, negsuc, pos_part, neg_part}

abbrev two_32 : ℕ
two_32 = 2 ^ 32

abbrev pub two_31 : ℕ
two_31 = 2 ^ 31

abbrev signed32 : ℕ → ℤ
signed32 w = if ltb w two_31 then pos w else negsuc (two_32 - 1 - w)

-- `int32(n)`
unfoldable pub wrap32 : ℤ → ℤ
wrap32 (pos n) = signed32 (n % two_32)
wrap32 (negsuc n) = signed32 (two_32 - 1 - n % two_32)

abbrev pub IsInt32 : ℤ → Type 0
IsInt32 z = (pos_part z < two_31) × (neg_part z ≤ two_31)

pub wrap32-eq : (z : ℤ) → IsInt32 z → wrap32 z ≡ z
unfolding wrap32
wrap32-eq (pos n) h = ground arith
wrap32-eq (negsuc n) h = ground arith

pub wrap32-IsInt32 : (z : ℤ) → IsInt32 (wrap32 z)
unfolding wrap32
wrap32-IsInt32 (pos n) = ground arith
wrap32-IsInt32 (negsuc n) = ground arith

-- ===== src/Time.antt =====
-- Package time. A moment is a number of nanoseconds since the Unix epoch, and a duration an `int64`
-- of nanoseconds; each call of `time.Now` is a reading of the world's clock.
use throttle.Prelude.{ℕ, ◌*◌, ◌-◌, ◌/◌, ◌≡◌, if◌then◌else◌, arith}
use throttle.Int.{ℤ, pos, negsuc, ◌-ℤ◌, ◌*ℤ◌, ltb_ℤ}
use throttle.Int64.{wrap64, add64, IsInt64, two_63}
use throttle.Exec.{Exec, returns}

-- Something whose clock can be read.
pub record Clock (W : Type 0) : Type 0 where
  pub read : W → ℤ × W

abbrev pub time_now : {W : Type 0} → Clock W → Exec W ℤ
time_now c w = let (t, w') = c.read w in (returns t, w')

abbrev pub nanos_per_second : ℕ
nanos_per_second = 1000000000

-- The constant `time.Second`.
abbrev pub second : ℤ
second = pos nanos_per_second

-- `t.UnixNano()`
unfoldable pub unix_nano : ℤ → ℤ
unix_nano t = wrap64 t

-- `t.Unix()`: whole seconds, rounded down.
unfoldable pub unix : ℤ → ℤ
unix (pos n) = pos (n / nanos_per_second)
unix (negsuc n) = negsuc (n / nanos_per_second)

-- The seconds from January 1 of the year 1 to the Unix epoch.
abbrev unix_to_internal : ℤ
unix_to_internal = pos 62135596800

-- `time.Unix(sec, 0)`: a `time.Time` holds the seconds since the year 1, in an `int64`.
abbrev pub time_unix : ℤ → ℤ
time_unix sec = (add64 sec unix_to_internal -ℤ unix_to_internal) *ℤ second

-- The zero `time.Time`: January 1 of the year 1.
abbrev pub zero_time : ℤ
zero_time = negsuc (62135596800 * nanos_per_second - 1)

abbrev pub max_duration : ℤ
max_duration = pos (two_63 - 1)

abbrev pub min_duration : ℤ
min_duration = negsuc (two_63 - 1)

-- A difference of moments is cut to the range of a duration.
unfoldable pub saturate : ℤ → ℤ
saturate z =
    if ltb_ℤ max_duration z then max_duration else if ltb_ℤ z min_duration then min_duration else z

-- `t.Sub(u)`
unfoldable pub time_sub : ℤ → ℤ → ℤ
time_sub t u = saturate (t -ℤ u)

pub saturate-eq : (z : ℤ) → IsInt64 z → saturate z ≡ z
unfolding saturate
saturate-eq (pos n) h = ground arith
saturate-eq (negsuc n) h = ground arith

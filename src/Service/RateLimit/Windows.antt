-- ===== src/Service/RateLimit/Windows.antt =====
-- When a window starts anew, and how long a denied client is told to wait.
use throttle.Prelude.{ℕ, suc, ◌+◌, ◌*◌, ◌/◌, ◌≤◌, ◌<◌, ◌≡◌, refl, arith}
use native.Mathlib.Nat.{div-mul-le_self, lt-div-mul-add, add-mul, div-le_self}
use throttle.Int.{ℤ, pos, ◌≤ℤ◌, ◌<ℤ◌}
use throttle.Int64.{two_63, add64, mul64, div64-pos, mul64-pos, add64-pos}
use throttle.Exec.{returns}
use throttle.Time.{Clock, unix, time_sub, time_unix}
use throttle.Float64.{Float64}
use throttle.Storage.{Store}
use throttle.Service.Config.{RateLimitConfig}
use throttle.Service.Limiters.{Codecs}
use throttle.Service.Limiters.Creation.{div64_total}
use throttle.Service.RateLimit.{calculate_reset_at, calculate_retry_after, at_least_one}

-- The first multiple of `size` past `s`.
abbrev window_past : ℕ → ℕ → ℕ
window_past s size = (s / size + 1) * size

past_window : (s n : ℕ) → (s < window_past s (suc n)) × (window_past s (suc n) ≤ s + suc n)
past_window s n = (
  omega (arith, lt-div-mul-add {a = s} {b = suc n} (omega arith), add-mul (s / suc n) 1 (suc n)),
  omega (arith, div-mul-le_self s (suc n), add-mul (s / suc n) 1 (suc n)),
)

module _ {F W : Type 0} (float : Float64 F) (store : Store F W) (clock : Clock W)
    (json : Codecs F) where
  reset_at_lem :
      (cfg : RateLimitConfig) (w : W) (s n : ℕ)
      → unix (clock.read w).0 ≡ pos s
      → cfg.window_seconds ≡ pos (suc n)
      → s + suc n < two_63
      → (calculate_reset_at float store clock json cfg w).0 ≡ returns (pos (window_past s (suc n)))
  unfolding calculate_reset_at
  reset_at_lem cfg w s n now size fits = ground (
    arith,
    now,
    size,
    div64-pos s n (omega arith),
    add64-pos (s / suc n) 1 (omega (arith, div-le_self s (suc n))),
    mul64-pos (s / suc n + 1) (suc n) (omega (arith, (past_window s n).1)),
  )

  -- At `s` seconds since the epoch and for a window of a positive number of seconds, where their sum
  -- fits an int64, `CalculateResetAt` answers with a time that lies after `s`, at most one window
  -- later, and is a multiple of the window.
  pub calculate_reset_at-bounds :
      (cfg : RateLimitConfig) (w : W) (s n : ℕ)
      → unix (clock.read w).0 ≡ pos s
      → cfg.window_seconds ≡ pos (suc n)
      → s + suc n < two_63
      → (reset_at : ℕ) × ((calculate_reset_at float store clock json cfg w).0
          ≡ returns (pos reset_at))
        × (s < reset_at)
        × (reset_at ≤ s + suc n)
        × ((windows : ℕ) × (reset_at ≡ windows * suc n))
  calculate_reset_at-bounds cfg w s n now size fits = (
    window_past s (suc n),
    reset_at_lem cfg w s n now size fits,
    (past_window s n).0,
    (past_window s n).1,
    (s / suc n + 1, refl),
  )

  at_least_one_lem : (n : ℤ) → pos 1 ≤ℤ at_least_one float store clock json n
  at_least_one_lem n = ground arith

  -- For a window of a positive number of seconds `CalculateRetryAfter` does not panic, and answers
  -- with at least one second.
  pub calculate_retry_after-positive :
      (cfg : RateLimitConfig) (w : W)
      → pos 0 <ℤ cfg.window_seconds
      → (retry_after : ℤ) × ((calculate_retry_after float store clock json cfg w).0
          ≡ returns retry_after)
        × (pos 1 ≤ℤ retry_after)
  unfolding calculate_retry_after
  calculate_retry_after-positive cfg w positive =
      let now = (clock.read w).0 in
      let later = (clock.read (clock.read w).1).0 in
      let (windows, e) = div64_total (unix later) cfg.window_seconds positive in
      let next = mul64 (add64 windows (pos 1)) cfg.window_seconds in
      let wait = float.to_int (float.seconds (time_sub (time_unix next) now)) in
      (at_least_one float store clock json wait, ground (arith, e), at_least_one_lem wait)

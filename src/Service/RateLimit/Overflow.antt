-- ===== src/Service/RateLimit/Overflow.antt =====
-- A window so long that its duration wraps around to zero.
use throttle.Prelude.{ℕ, ◌*◌, ◌^◌, String, ◌≡◌, ap, ◌∙◌, arith}
use throttle.Int.{ℤ, pos}
use throttle.Int64.{wrap64, mul64, div64, mul-pos_pos, two_64}
use throttle.Exec.{ok, returns, panics}
use throttle.Time.{Clock, nanos_per_second}
use throttle.Float64.{Float64}
use throttle.Storage.{Store}
use throttle.Limiter.LeakyBucket
use throttle.Service.Config.{RateLimitConfig}
use throttle.Service.Limiters.{Codecs, new_leaky_bucket, window_duration}
use throttle.Service.RateLimit.{as_rate_limiter}

whole_turns : (k : ℕ) → wrap64 (pos (k * two_64)) ≡ pos 0
unfolding wrap64
whole_turns k = ground arith

window_duration_wraps :
    (cfg : RateLimitConfig) (k : ℕ)
    → cfg.window_seconds ≡ pos (k * 2 ^ 55)
    → window_duration cfg ≡ pos 0
unfolding mul64
window_duration_wraps cfg k h =
    rw (h, mul-pos_pos (k * 2 ^ 55) nanos_per_second)
      (ap (λ (n : ℕ). wrap64 (pos n)) (omega arith) ∙ whole_turns (k * 1953125))

module _ {F W : Type 0} (float : Float64 F) (store : Store F W) (clock : Clock W)
    (json : Codecs F) where
  -- The leaky bucket that the service makes for a window of a multiple of 2 ^ 55 seconds has the leak
  -- interval zero, so that `Allow` panics as soon as it has read the state.
  pub leaky_panics :
      (cfg : RateLimitConfig) (rate : ℤ) (k : ℕ) (key text : String) (w : W)
      → cfg.window_seconds ≡ pos (k * 2 ^ 55)
      → (store.get (LeakyBucket.state_key key) (clock.read w).1).0 ≡ returns (ok text)
      → ((as_rate_limiter float store clock json (new_leaky_bucket cfg rate)).allow key w).0
        ≡ panics
  unfolding as_rate_limiter LeakyBucket.allow LeakyBucket.step LeakyBucket.leak div64
  leaky_panics cfg rate k key text w h found = ground (arith, window_duration_wraps cfg k h, found)

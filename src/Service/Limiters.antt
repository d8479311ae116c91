-- ===== src/Service/Limiters.antt =====
-- internal/service/ratelimit.go: its types, its keys, and the limiters that it makes and keeps.
pub mod Creation
pub mod Others
use Prim.Native.String.{◌++◌}
use throttle.Prelude.{
  ℕ, [], String, Bool, true, false, ◌*◌, Option, none, some, ◌==◌, if◌then◌else◌,
}
use throttle.Int.{ℤ, pos, ◌*ℤ◌, ltb_ℤ, leb_ℤ}
use throttle.Int64.{add64, mul64, div64, is_zero}
use throttle.Exec.{
  Error, message, wrapped, not_found, Result, ok, err, Outcome, returns, panics, Exec, pure, panic,
  or_return, ◌>>=◌, ◌>>◌,
}
use throttle.Time.{Clock, time_now, unix, time_sub, second}
use throttle.Float64.{Float64}
use throttle.Codec.{Codec}
use throttle.Storage.{Store}
use throttle.Dict
use throttle.Dict.{Dict}
use throttle.Limiter.{Verdict, RateLimiter}
use throttle.Limiter.TokenBucket.{TokenBucket, TokenBucketState, token_bucket_limiter}
use throttle.Limiter.SlidingWindow.{SlidingWindow, SlidingWindowState, sliding_window_limiter}
use throttle.Limiter.FixedWindow.{FixedWindow, FixedWindowState, fixed_window_limiter}
use throttle.Limiter.LeakyBucket.{LeakyBucket, LeakyBucketState, leaky_bucket_limiter}
use throttle.Service.Config.{
  RateLimitConfig, validate_config, token_bucket, sliding_window, fixed_window, leaky_bucket,
}

pub record CheckLimitResponse : Type 0 where
  pub allowed : Bool
  pub remaining : ℤ
  pub reset_at : ℤ
  pub retry_after : ℤ

pub record GetStatusResponse : Type 0 where
  pub config : RateLimitConfig
  pub created_at : ℤ
  pub updated_at : ℤ
  pub next_reset : ℤ

pub record RateLimitMetadata : Type 0 where
  pub created_at : ℤ
  pub updated_at : ℤ

-- The limiters that `GetOrCreateLimiter` makes, behind the interface `RateLimiter`.
pub data Limiter (F : Type 0) : Type 0 where
  token : TokenBucket F → Limiter F
  sliding : SlidingWindow → Limiter F
  fixed : FixedWindow → Limiter F
  leaky : LeakyBucket → Limiter F

-- The struct types that pass through encoding/json.
pub record Codecs (F : Type 0) : Type 0 where
  pub configs : Codec RateLimitConfig
  pub metadata : Codec RateLimitMetadata
  pub token_states : Codec (TokenBucketState F)
  pub sliding_states : Codec SlidingWindowState
  pub fixed_states : Codec FixedWindowState
  pub leaky_states : Codec LeakyBucketState

-- The service's own map of limiters, beside the world that the store lives in.
pub record Service (F W : Type 0) : Type 0 where
  pub limiters : Dict (Limiter F)
  pub world : W

-- `NewRateLimitService`: no limiters yet.
abbrev pub new_rate_limit_service : {F W : Type 0} → W → Service F W
new_rate_limit_service w = record { limiters = []; world = w }

-- A step of the world only.
abbrev pub in_world : {F W A : Type 0} → Exec W A → Exec (Service F W) A
in_world m s = let (r, w) = m s.world in (r, record s { world = w })

unfoldable pub config_key : String → String
config_key key = "ratelimit:config:" ++ key

unfoldable pub metadata_key : String → String
metadata_key key = "ratelimit:metadata:" ++ key

unfoldable pub limiter_key : String → String → String
limiter_key key algorithm = key ++ (":" ++ algorithm)

-- "leakRate := cfg.Limit / int64(cfg.WindowSeconds)", at least 1; `none` is a panic.
abbrev pub leak_rate : RateLimitConfig → Option ℤ
leak_rate cfg = elim (div64 cfg.limit cfg.window_seconds) [
  | none ↦ none
  | some rate ↦ some (if is_zero rate then pos 1 else rate)
]

abbrev pub window_duration : RateLimitConfig → ℤ
window_duration cfg = mul64 cfg.window_seconds second

module _ {F : Type 0} where
  abbrev pub new_sliding_window : RateLimitConfig → Limiter F
  new_sliding_window cfg =
      sliding (record { max_requests = cfg.limit; window_duration = window_duration cfg })

  abbrev pub new_fixed_window : RateLimitConfig → Limiter F
  new_fixed_window cfg =
      fixed (record { max_requests = cfg.limit; window_duration = window_duration cfg })

  abbrev pub new_leaky_bucket : RateLimitConfig → ℤ → Limiter F
  new_leaky_bucket cfg rate = leaky (record {
    bucket_capacity = cfg.limit;
    leak_rate = rate;
    leak_interval = window_duration cfg;
  })

unfoldable pub calculate_remaining : RateLimitConfig → Bool → ℤ
calculate_remaining cfg allowed = if allowed then cfg.limit else pos 0

module _ {F : Type 0} (float : Float64 F) where
  -- The four calls of a constructor.
  abbrev pub new_token_bucket : RateLimitConfig → Limiter F
  new_token_bucket cfg = token (record {
    refill_rate = float.of_int cfg.refill_rate;
    refill_interval = mul64 cfg.refill_interval second;
    max_tokens = float.of_int cfg.limit;
  })

  -- The `switch` on the algorithm.
  unfoldable pub new_limiter : RateLimitConfig → ℤ → Result (Limiter F)
  new_limiter cfg rate =
      if cfg.algorithm == token_bucket
      then ok (new_token_bucket cfg)
      else if cfg.algorithm == sliding_window
      then ok (new_sliding_window cfg)
      else if cfg.algorithm == fixed_window
      then ok (new_fixed_window cfg)
      else if cfg.algorithm == leaky_bucket
      then ok (new_leaky_bucket cfg rate)
      else err (message ("unsupported algorithm: " ++ cfg.algorithm))

  module _ {W : Type 0} where
    abbrev register : String → Limiter F → Exec (Service F W) (Result (Limiter F))
    register key lim s = pure (ok lim) (record s { limiters = Dict.insert key lim s.limiters })

    abbrev create_limiter :
        String → RateLimitConfig → Option ℤ → Exec (Service F W) (Result (Limiter F))
    create_limiter key cfg none = panic
    create_limiter key cfg (some rate) =
        or_return (λ e. pure (err e)) (register key) (new_limiter cfg rate)

    abbrev found_or :
        Option (Limiter F)
        → Exec (Service F W) (Result (Limiter F))
        → Exec (Service F W) (Result (Limiter F))
    found_or none create = create
    found_or (some lim) create = pure (ok lim)

    unfoldable pub get_or_create_limiter :
        String → RateLimitConfig → Exec (Service F W) (Result (Limiter F))
    get_or_create_limiter key cfg s =
        found_or (Dict.lookup key s.limiters) (create_limiter key cfg (leak_rate cfg)) s

-- ===== src/Service/Config.antt =====
-- internal/service/constants.go, and the configuration of a rate limit with its validation
-- (internal/service/ratelimit.go).
pub mod Validity
use Prim.Native.String.{◌++◌}
use throttle.Prelude.{String, Bool, true, false, ◌||◌, ◌==◌, if◌then◌else◌}
use throttle.Int.{ℤ, pos, leb_ℤ}
use throttle.Exec.{Error, message, Result, ok, err}

abbrev pub token_bucket : String
token_bucket = "token_bucket"

abbrev pub sliding_window : String
sliding_window = "sliding_window"

abbrev pub fixed_window : String
fixed_window = "fixed_window"

abbrev pub leaky_bucket : String
leaky_bucket = "leaky_bucket"

pub record RateLimitConfig : Type 0 where
  pub algorithm : String
  pub limit : ℤ
  pub window_seconds : ℤ
  pub refill_rate : ℤ
  pub refill_interval : ℤ

-- The map `validAlgorithms`: the names that it holds.
abbrev pub valid_algorithm : String → Bool
valid_algorithm name =
    name == token_bucket || name == sliding_window || name == fixed_window || name == leaky_bucket

-- The checks on the refill, made for a token bucket only.
unfoldable pub validate_refill : RateLimitConfig → Result (Unit {0})
validate_refill cfg =
    if cfg.algorithm == token_bucket
    then (if leb_ℤ cfg.refill_rate (pos 0)
        then err (message "refill_rate must be greater than 0 for token bucket")
        else if leb_ℤ cfg.refill_interval (pos 0)
        then err (message "refill_interval must be greater than 0 for token bucket")
        else ok tt)
    else ok tt

unfoldable pub validate_config : RateLimitConfig → Result (Unit {0})
unfolding validate_refill
validate_config cfg =
    if cfg.algorithm == ""
    then err (message "algorithm is required")
    else if valid_algorithm cfg.algorithm
    then (if leb_ℤ cfg.limit (pos 0)
        then err (message "limit must be greater than 0")
        else if leb_ℤ cfg.window_seconds (pos 0)
        then err (message "window_seconds must be greater than 0")
        else validate_refill cfg)
    else err (message ("invalid algorithm: " ++ cfg.algorithm))

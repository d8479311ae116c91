-- ===== src/Service/RateLimit.antt =====
-- internal/service/ratelimit.go: the operations of `RateLimitService`.
pub mod Configs
pub mod FailOpen
mod Tests
pub mod Overflow
pub mod Reports
pub mod Resets
pub mod Windows
pub mod OnMemory
pub mod OnRedis
pub mod Checks
pub mod Foreign
pub mod Isolation
pub mod OwnKeys
pub mod Counts
pub mod Configured
use throttle.Prelude.{String, Bool, true, false, Option, none, some, ◌==◌, if◌then◌else◌}
use throttle.Int.{ℤ, pos, ◌*ℤ◌, ltb_ℤ}
use throttle.Int64.{add64, mul64, div64}
use throttle.Exec.{
  Error, wrapped, not_found, Result, ok, err, Exec, pure, panic, or_return, ◌>>=◌, ◌>>◌,
}
use throttle.Time.{Clock, time_now, unix, time_sub, time_unix}
use throttle.Float64.{Float64}
use throttle.Codec.{Codec}
use throttle.Storage.{Store}
use throttle.Limiter.{Verdict, RateLimiter}
use throttle.Limiter.TokenBucket.{token_bucket_limiter}
use throttle.Limiter.SlidingWindow.{sliding_window_limiter}
use throttle.Limiter.FixedWindow.{fixed_window_limiter}
use throttle.Limiter.LeakyBucket.{leaky_bucket_limiter}
use throttle.Service.Config.{RateLimitConfig, validate_config}
use throttle.Service.Limiters.{
  CheckLimitResponse, GetStatusResponse, RateLimitMetadata, Limiter, token, sliding, fixed, leaky,
  Codecs, Service, in_world, config_key, metadata_key, limiter_key, calculate_remaining,
  get_or_create_limiter,
}

module _ {F W : Type 0} (float : Float64 F) (store : Store F W) (clock : Clock W)
    (json : Codecs F) where
  -- The method table of a limiter.
  unfoldable pub as_rate_limiter : Limiter F → RateLimiter W
  as_rate_limiter (token tb) = token_bucket_limiter float store clock json.token_states tb
  as_rate_limiter (sliding sw) = sliding_window_limiter store clock json.sliding_states sw
  as_rate_limiter (fixed fw) = fixed_window_limiter store clock json.fixed_states fw
  as_rate_limiter (leaky lb) = leaky_bucket_limiter store clock json.leaky_states lb

  abbrev parsed_config : Result RateLimitConfig → Exec W (Result RateLimitConfig)
  parsed_config (ok cfg) = pure (ok cfg)
  parsed_config (err e) = pure (err (wrapped "failed to parse configuration" e))

  unfoldable pub get_config : String → Exec W (Result RateLimitConfig)
  get_config key = do
    found ← store.get (config_key key)
    or_return (λ e. pure (err e))
        (λ config_str.
          if config_str == ""
          then pure (err not_found)
          else parsed_config (json.configs.unmarshal config_str))
        found

  abbrev parsed_metadata : Result RateLimitMetadata → Exec W (Result RateLimitMetadata)
  parsed_metadata (ok metadata) = pure (ok metadata)
  parsed_metadata (err e) = pure (err (wrapped "failed to parse metadata" e))

  unfoldable pub parse_metadata : String → Exec W (Result RateLimitMetadata)
  parse_metadata key = do
    found ← store.get (metadata_key key)
    or_return (λ e. pure (err e))
        (λ metadata_str.
          if metadata_str == ""
          then pure (err not_found)
          else parsed_metadata (json.metadata.unmarshal metadata_str))
        found

  -- A window of zero seconds is a division by zero.
  abbrev window_after : RateLimitConfig → Option ℤ → Exec W ℤ
  window_after cfg none = panic
  window_after cfg (some windows_since_epoch) =
      pure (mul64 (add64 windows_since_epoch (pos 1)) cfg.window_seconds)

  unfoldable pub next_window_start : RateLimitConfig → Exec W ℤ
  next_window_start cfg = do
    now ← time_now clock
    window_after cfg (div64 (unix now) cfg.window_seconds)

  unfoldable pub calculate_reset_at : RateLimitConfig → Exec W ℤ
  unfolding next_window_start
  calculate_reset_at cfg = next_window_start cfg

  abbrev pub at_least_one : ℤ → ℤ
  at_least_one n = if ltb_ℤ n (pos 1) then pos 1 else n

  unfoldable pub calculate_retry_after : RateLimitConfig → Exec W ℤ
  unfolding next_window_start
  calculate_retry_after cfg = do
    now ← time_now clock
    next_window ← next_window_start cfg
    pure (at_least_one (float.to_int (float.seconds (time_sub (time_unix next_window) now))))

  unfoldable pub set_config : String → RateLimitConfig → Exec W (Result (Unit {0}))
  set_config key cfg =
      or_return (λ e. pure (err e))
        (λ _.
          or_return (λ e. pure (err e))
            (λ config_json. do
              now ← time_now clock
              let metadata : RateLimitMetadata = record {
                created_at = unix now;
                updated_at = unix now;
              }
              or_return (λ e. pure (err e))
                  (λ metadata_json. do
                    stored ← store.set (config_key key) config_json (pos 0)
                    or_return (λ e. pure (err e))
                        (λ _. store.set (metadata_key key) metadata_json (pos 0)) stored)
                  (json.metadata.marshal metadata))
            (json.configs.marshal cfg))
        (validate_config cfg)

  -- "Fail open on error"
  abbrev allowed_or_open : Verdict → Bool
  allowed_or_open v = elim v.error [ none ↦ v.allowed | some e ↦ true ]

  unfoldable pub respond : RateLimitConfig → Bool → Exec W CheckLimitResponse
  unfolding calculate_remaining calculate_reset_at calculate_retry_after
  respond cfg allowed = do
    reset_at ← calculate_reset_at cfg
    retry_after ← calculate_retry_after cfg
    pure (record {
      allowed = allowed;
      remaining = calculate_remaining cfg allowed;
      reset_at = reset_at;
      retry_after = retry_after;
    })

  unfoldable pub check_limit : String → Exec (Service F W) (Result CheckLimitResponse)
  check_limit key = do
    found ← in_world (get_config key)
    or_return (λ e. pure (err e))
        (λ cfg. do
          made ← get_or_create_limiter float (limiter_key key cfg.algorithm) cfg
          or_return (λ e. pure (err e))
              (λ lim. do
                v ← in_world ((as_rate_limiter lim).allow key)
                response ← in_world (respond cfg (allowed_or_open v))
                pure (ok response))
              made)
        found

  -- Both deletions are made; an error of either is only logged.
  unfoldable pub reset_limit : String → Exec (Service F W) (Result (Unit {0}))
  reset_limit key = do
    found ← in_world (get_config key)
    or_return (λ e. pure (err e))
        (λ cfg. do
          made ← get_or_create_limiter float (limiter_key key cfg.algorithm) cfg
          or_return (λ e. pure (err e))
              (λ lim. do
                cleared ← in_world ((as_rate_limiter lim).reset key)
                or_return (λ e. pure (err e))
                    (λ _. do
                      in_world (store.delete (config_key key))
                      in_world (store.delete (metadata_key key))
                      pure (ok tt))
                    cleared)
              made)
        found

  -- Metadata that cannot be read is replaced by the time of the call.
  abbrev metadata_or_now : Result RateLimitMetadata → Exec W RateLimitMetadata
  metadata_or_now (ok metadata) = pure metadata
  metadata_or_now (err e) = do
    now ← time_now clock
    pure (record { created_at = unix now; updated_at = unix now })

  unfoldable pub get_status : String → Exec W (Result GetStatusResponse)
  unfolding calculate_reset_at
  get_status key = do
    found ← get_config key
    or_return (λ e. pure (err e))
        (λ cfg. do
          read ← parse_metadata key
          metadata ← metadata_or_now read
          next_reset ← calculate_reset_at cfg
          pure (
              ok (record {
                config = cfg;
                created_at = metadata.created_at;
                updated_at = metadata.updated_at;
                next_reset = next_reset;
              })))
        found

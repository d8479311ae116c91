-- ===== src/Limiter/TokenBucket.antt =====
-- internal/limiter/token_bucket.go
pub mod Tokens
mod Tests
use Prim.Native.String.{◌++◌}
use throttle.Prelude.{String, Bool, true, false, ◌==◌, ◌*◌, if◌then◌else◌}
use throttle.Int.{ℤ, pos}
use throttle.Exec.{Error, wrapped, Result, ok, err, Exec, pure, or_return, ◌>>=◌}
use throttle.Time.{Clock, time_now, unix_nano, time_sub, nanos_per_second}
use throttle.Float64.{Float64}
use throttle.Codec.{Codec}
use throttle.Storage.{Store}
use throttle.Limiter.{Verdict, verdict, fail_open, RateLimiter}

-- The parameters of the Go struct; the store and the logger are the section's.
pub record TokenBucket (F : Type 0) : Type 0 where
  pub refill_rate : F
  pub refill_interval : ℤ
  pub max_tokens : F

pub record TokenBucketState (F : Type 0) : Type 0 where
  pub tokens : F
  pub last_fill_time : ℤ

unfoldable pub state_key : String → String
state_key key = "limiter:token_bucket:" ++ key

-- `24 * time.Hour`
abbrev pub day : ℤ
day = pos (24 * 3600 * nanos_per_second)

module _ {F : Type 0} (float : Float64 F) where
  open float use {one, add, sub, mul, div, lt, le, seconds}

  -- The package's own `min`.
  unfoldable pub min : F → F → F
  min a b = if lt a b then a else b

  -- "Calculate tokens to add based on elapsed time", up to the cap.
  unfoldable pub refill : TokenBucket F → ℤ → TokenBucketState F → TokenBucketState F
  unfolding min
  refill tb now state =
      let elapsed = time_sub now state.last_fill_time in
      let tokens_to_add = mul tb.refill_rate (div (seconds elapsed) (seconds tb.refill_interval)) in
      record {
        tokens = min (add state.tokens tokens_to_add) tb.max_tokens;
        last_fill_time = unix_nano now;
      }

  -- "Check if we can consume a token"
  unfoldable pub consume : TokenBucketState F → Bool × TokenBucketState F
  consume state =
      if le one state.tokens
      then (true, record state { tokens = sub state.tokens one })
      else (false, state)

  module _ {W : Type 0} (store : Store F W) (clock : Clock W)
      (json : Codec (TokenBucketState F)) where
    full_bucket : TokenBucket F → Exec W (Result (TokenBucketState F))
    full_bucket tb = do
      t ← time_now clock
      pure (ok (record { tokens = tb.max_tokens; last_fill_time = unix_nano t }))

    unfoldable pub get_bucket_state : TokenBucket F → String → Exec W (Result (TokenBucketState F))
    unfolding full_bucket
    get_bucket_state tb key = do
      found ← store.get key
      or_return (λ e. pure (err (wrapped "get bucket state" e)))
          (λ state_str.
            if state_str == "" then full_bucket tb else elim (json.unmarshal state_str) [
              | ok state ↦ pure (ok state)
              | err e ↦ full_bucket tb
            ])
          found

    unfoldable pub set_bucket_state : String → TokenBucketState F → Exec W (Result (Unit {0}))
    set_bucket_state key state =
        or_return (λ e. pure (err (wrapped "marshal bucket state" e)))
          (λ state_json. do
            done ← store.set key state_json day
            or_return (λ e. pure (err (wrapped "set bucket state" e))) (λ _. pure (ok tt)) done)
          (json.marshal state)

    unfoldable pub allow : TokenBucket F → String → Exec W Verdict
    unfolding get_bucket_state set_bucket_state refill consume state_key
    allow tb key = do
      found ← get_bucket_state tb (state_key key)
      or_return (λ e. pure (fail_open e))
          (λ state. do
            now ← time_now clock
            let (allowed, state') = consume (refill tb now state)
            done ← set_bucket_state (state_key key) state'
            or_return (λ e. pure (fail_open e)) (λ _. pure (verdict allowed)) done)
          found

    unfoldable pub reset : TokenBucket F → String → Exec W (Result (Unit {0}))
    unfolding state_key
    reset tb key = do
      done ← store.delete (state_key key)
      or_return (λ e. pure (err (wrapped "reset bucket state" e))) (λ _. pure (ok tt)) done

    unfoldable pub close : TokenBucket F → Exec W (Result (Unit {0}))
    close tb = pure (ok tt)

    abbrev pub token_bucket_limiter : TokenBucket F → RateLimiter W
    token_bucket_limiter tb = record { allow = allow tb; reset = reset tb; close = close tb }

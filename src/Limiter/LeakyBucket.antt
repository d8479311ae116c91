-- ===== src/Limiter/LeakyBucket.antt =====
-- internal/limiter/leaky_bucket.go
pub mod Levels
mod Tests
use Prim.Native.String.{◌++◌}
use throttle.Prelude.{String, Bool, true, false, Option, none, some, ◌==◌, ◌*◌, if◌then◌else◌}
use throttle.Int.{ℤ, pos, ltb_ℤ}
use throttle.Int64.{add64, sub64, mul64, div64}
use throttle.Exec.{Error, wrapped, Result, ok, err, Exec, pure, panic, or_return, ◌>>=◌}
use throttle.Time.{Clock, time_now, unix_nano, nanos_per_second}
use throttle.Codec.{Codec}
use throttle.Storage.{Store}
use throttle.Limiter.{Verdict, verdict, fail_open, RateLimiter}

-- The parameters of the Go struct; the store and the logger are the section's.
pub record LeakyBucket : Type 0 where
  pub bucket_capacity : ℤ
  pub leak_rate : ℤ
  pub leak_interval : ℤ

pub record LeakyBucketState : Type 0 where
  pub count : ℤ
  pub last_leak_time : ℤ

abbrev pub empty_bucket : ℤ → LeakyBucketState
empty_bucket now = record { count = pos 0; last_leak_time = now }

-- `if state.Count < 0 { state.Count = 0 }`
abbrev pub at_least_zero : ℤ → ℤ
at_least_zero n = if ltb_ℤ n (pos 0) then pos 0 else n

-- From the time elapsed to the leaked state; `none` is the panic of a division by zero.
unfoldable pub leak : LeakyBucket → ℤ → LeakyBucketState → Option LeakyBucketState
leak lb now state = elim (div64 (sub64 now state.last_leak_time) lb.leak_interval) [
  | none ↦ none
  | some intervals_elapsed ↦ some (record {
    count = at_least_zero (sub64 state.count (mul64 intervals_elapsed lb.leak_rate));
    last_leak_time = now;
  })
]

-- "Check if request can be added to bucket"
unfoldable pub admit : LeakyBucket → LeakyBucketState → Bool × LeakyBucketState
admit lb state =
    if ltb_ℤ state.count lb.bucket_capacity
    then (true, record state { count = add64 state.count (pos 1) })
    else (false, state)

-- One request at time `now`, on the state that was stored.
unfoldable pub step : LeakyBucket → ℤ → LeakyBucketState → Option (Bool × LeakyBucketState)
unfolding admit
step lb now state = elim (leak lb now state) [ none ↦ none | some leaked ↦ some (admit lb leaked) ]

-- The text that the store has, or "" for none, as a state.
unfoldable pub load : Codec LeakyBucketState → ℤ → String → LeakyBucketState
load json now state_str =
    if state_str == ""
    then empty_bucket now
    else elim (json.unmarshal state_str) [ ok s ↦ s | err e ↦ empty_bucket now ]

unfoldable pub state_key : String → String
state_key key = "limiter:leaky_bucket:" ++ key

-- `24 * time.Hour`
abbrev pub day : ℤ
day = pos (24 * 3600 * nanos_per_second)

module _ {F W : Type 0} (store : Store F W) (clock : Clock W) (json : Codec LeakyBucketState) where
  -- From the new state on: marshal it, store it and answer.
  unfoldable pub save : String → Bool × LeakyBucketState → Exec W Verdict
  unfolding state_key
  save key (allowed, state) =
      or_return (λ e. pure (fail_open e))
        (λ state_json. do
          done ← store.set (state_key key) state_json day
          or_return (λ e. pure (fail_open e)) (λ _. pure (verdict allowed)) done)
        (json.marshal state)

  unfoldable pub allow : LeakyBucket → String → Exec W Verdict
  unfolding load step leak state_key save
  allow lb key = do
    t ← time_now clock
    let now = unix_nano t
    found ← store.get (state_key key)
    or_return (λ e. pure (fail_open e))
        (λ state_str. elim (step lb now (load json now state_str)) [
          | none ↦ panic
          | some next ↦ save key next
        ])
        found

  unfoldable pub reset : LeakyBucket → String → Exec W (Result (Unit {0}))
  unfolding state_key
  reset lb key = do
    done ← store.delete (state_key key)
    or_return (λ e. pure (err (wrapped "reset leaky bucket state" e))) (λ _. pure (ok tt)) done

  unfoldable pub close : LeakyBucket → Exec W (Result (Unit {0}))
  close lb = pure (ok tt)

  abbrev pub leaky_bucket_limiter : LeakyBucket → RateLimiter W
  leaky_bucket_limiter lb = record { allow = allow lb; reset = reset lb; close = close lb }

-- ===== src/Limiter/SlidingWindow.antt =====
-- internal/limiter/sliding_window.go
pub mod Recent
pub mod Quota
pub mod OnMemory
pub mod Mirror
pub mod Runs
pub mod Enforced
mod Tests
use Prim.Native.String.{◌++◌}
use throttle.Prelude.{
  ℕ, zero, suc, ◌-◌, String, Bool, true, false, List, [], ◌∷◌, ◌==◌, if◌then◌else◌, length, drop,
}
use mathlib.Core.List.{◌++◌ as append}
use throttle.Int.{ℤ, pos, ltb_ℤ}
use throttle.Int64.{add64, sub64}
use throttle.Exec.{Error, wrapped, Result, ok, err, Exec, pure, or_return, ◌>>=◌}
use throttle.Time.{Clock, time_now, unix_nano, second}
use throttle.Codec.{Codec}
use throttle.Storage.{Store}
use throttle.Limiter.{Verdict, verdict, fail_open, RateLimiter}

-- The parameters of the Go struct; the store and the logger are the section's.
pub record SlidingWindow : Type 0 where
  pub max_requests : ℤ
  pub window_duration : ℤ

pub record SlidingWindowState : Type 0 where
  pub timestamps : List ℤ

-- The loop that looks for the first timestamp past the window's start: its index, or the length.
unfoldable pub valid_start_idx : ℤ → List ℤ → ℕ
valid_start_idx window_start [] = 0
valid_start_idx window_start (ts ∷ rest) =
    let later = valid_start_idx window_start rest in if ltb_ℤ window_start ts then 0 else suc later

-- "Remove timestamps outside the window"
unfoldable pub filtered : ℤ → List ℤ → List ℤ
unfolding valid_start_idx
filtered window_start timestamps = drop (valid_start_idx window_start timestamps) timestamps

-- "Check if request is allowed"
unfoldable pub admit : SlidingWindow → ℤ → List ℤ → Bool × List ℤ
admit sw now timestamps =
    if ltb_ℤ (pos (length timestamps)) sw.max_requests
    then (true, append timestamps (now ∷ []))
    else (false, timestamps)

-- One request at time `now`, on the timestamps that were stored.
unfoldable pub step : SlidingWindow → ℤ → List ℤ → Bool × List ℤ
unfolding filtered admit
step sw now timestamps = admit sw now (filtered (sub64 now sw.window_duration) timestamps)

-- The text that the store has, or "" for none, as timestamps.
unfoldable pub load : Codec SlidingWindowState → String → List ℤ
load json state_str =
    if state_str == ""
    then []
    else elim (json.unmarshal state_str) [ ok s ↦ s.timestamps | err e ↦ [] ]

unfoldable pub state_key : String → String
state_key key = "limiter:sliding_window:" ++ key

module _ {F W : Type 0} (store : Store F W) (clock : Clock W)
    (json : Codec SlidingWindowState) where
  unfoldable pub allow : SlidingWindow → String → Exec W Verdict
  unfolding load step state_key
  allow sw key = do
    t ← time_now clock
    let now = unix_nano t
    found ← store.get (state_key key)
    or_return (λ e. pure (fail_open e))
        (λ state_str. do
          let (allowed, timestamps) = step sw now (load json state_str)
          or_return (λ e. pure (fail_open e))
              (λ state_json. do
                done ← store.set (state_key key) state_json (add64 sw.window_duration second)
                or_return (λ e. pure (fail_open e)) (λ _. pure (verdict allowed)) done)
              (json.marshal (record { timestamps = timestamps })))
        found

  unfoldable pub reset : SlidingWindow → String → Exec W (Result (Unit {0}))
  unfolding state_key
  reset sw key = do
    done ← store.delete (state_key key)
    or_return (λ e. pure (err (wrapped "reset sliding window state" e))) (λ _. pure (ok tt)) done

  unfoldable pub close : SlidingWindow → Exec W (Result (Unit {0}))
  close sw = pure (ok tt)

  abbrev pub sliding_window_limiter : SlidingWindow → RateLimiter W
  sliding_window_limiter sw = record { allow = allow sw; reset = reset sw; close = close sw }

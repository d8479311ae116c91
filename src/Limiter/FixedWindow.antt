-- ===== src/Limiter/FixedWindow.antt =====
-- internal/limiter/fixed_window.go
pub mod Quota
pub mod OnMemory
pub mod Expiration
pub mod Mirror
pub mod Runs
pub mod Enforced
pub mod Clients
pub mod Counting
pub mod Race
mod Tests
use Prim.Native.String.{◌++◌}
use throttle.Prelude.{String, Bool, true, false, Option, none, some, ◌==◌, if◌then◌else◌}
use throttle.Int.{ℤ, pos, ltb_ℤ, leb_ℤ}
use throttle.Int64.{add64}
use throttle.Exec.{Error, wrapped, Result, ok, err, Exec, pure, or_return, ◌>>=◌}
use throttle.Time.{Clock, time_now, unix_nano, time_sub, second}
use throttle.Codec.{Codec}
use throttle.Storage.{Store}
use throttle.Limiter.{Verdict, verdict, fail_open, RateLimiter}

-- The parameters of the Go struct; the store and the logger are the section's.
pub record FixedWindow : Type 0 where
  pub max_requests : ℤ
  pub window_duration : ℤ

pub record FixedWindowState : Type 0 where
  pub count : ℤ
  pub window_end : ℤ

abbrev pub fresh : FixedWindow → ℤ → FixedWindowState
fresh fw now = record { count = pos 0; window_end = add64 now fw.window_duration }

-- "Check if we're in a new window"
unfoldable pub roll : FixedWindow → ℤ → FixedWindowState → FixedWindowState
roll fw now state = if leb_ℤ state.window_end now then fresh fw now else state

-- "Check if request is allowed"
unfoldable pub admit : FixedWindow → FixedWindowState → Bool × FixedWindowState
admit fw state =
    if ltb_ℤ state.count fw.max_requests
    then (true, record state { count = add64 state.count (pos 1) })
    else (false, state)

-- The text that the store has, or "" for none, as a state at the time `now`.
unfoldable pub load : Codec FixedWindowState → FixedWindow → ℤ → String → FixedWindowState
unfolding roll
load json fw now state_str =
    if state_str == ""
    then fresh fw now
    else roll fw now (elim (json.unmarshal state_str) [ ok s ↦ s | err e ↦ fresh fw now ])

unfoldable pub state_key : String → String
state_key key = "limiter:fixed_window:" ++ key

-- Until the window ends, and a second more; `until` is `time.Until` of the window's end.
unfoldable pub expiration_after : FixedWindow → ℤ → ℤ
expiration_after fw until =
    let expiration = add64 until second in
    if ltb_ℤ expiration (pos 0) then add64 fw.window_duration second else expiration

module _ {F W : Type 0} (store : Store F W) (clock : Clock W) (json : Codec FixedWindowState) where
  unfoldable pub allow : FixedWindow → String → Exec W Verdict
  unfolding load admit state_key expiration_after
  allow fw key = do
    t ← time_now clock
    let now = unix_nano t
    found ← store.get (state_key key)
    or_return (λ e. pure (fail_open e))
        (λ state_str. do
          let (allowed, state) = admit fw (load json fw now state_str)
          or_return (λ e. pure (fail_open e))
              (λ state_json. do
                t' ← time_now clock
                let expiration = expiration_after fw (time_sub state.window_end t')
                done ← store.set (state_key key) state_json expiration
                or_return (λ e. pure (fail_open e)) (λ _. pure (verdict allowed)) done)
              (json.marshal state))
        found

  unfoldable pub reset : FixedWindow → String → Exec W (Result (Unit {0}))
  unfolding state_key
  reset fw key = do
    done ← store.delete (state_key key)
    or_return (λ e. pure (err (wrapped "reset fixed window state" e))) (λ _. pure (ok tt)) done

  unfoldable pub close : FixedWindow → Exec W (Result (Unit {0}))
  close fw = pure (ok tt)

  abbrev pub fixed_window_limiter : FixedWindow → RateLimiter W
  fixed_window_limiter fw = record { allow = allow fw; reset = reset fw; close = close fw }

-- ===== src/Service/Health.antt =====
-- internal/service/health.go
use throttle.Prelude.{String, Option, none, some}
use throttle.Int.{ℤ}
use throttle.Exec.{Error, Result, Exec, pure, or_return, ◌>>=◌}
use throttle.Time.{Clock, time_now}
use throttle.Storage.{Store}

-- `(status, timestamp, err)`; the timestamp is the moment that is formatted.
pub record HealthStatus : Type 0 where
  pub status : String
  pub timestamp : ℤ
  pub error : Option Error

module _ {F W : Type 0} (store : Store F W) (clock : Clock W) where
  unfoldable pub get_health_status : Exec W HealthStatus
  get_health_status = do
    timestamp ← time_now clock
    reached ← store.ping
    or_return (λ e. pure (record { status = "unhealthy"; timestamp = timestamp; error = some e }))
        (λ _. pure (record { status = "healthy"; timestamp = timestamp; error = none })) reached

  unfoldable pub ping : Exec W (Result (Unit {0}))
  ping = store.ping

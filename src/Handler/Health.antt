-- ===== src/Handler/Health.antt =====
-- internal/handler/health_check.go
use throttle.Prelude.{none, some, [], ◌∷◌}
use throttle.Exec.{Exec, pure, ◌>>=◌}
use throttle.Time.{Clock}
use throttle.Storage.{Store}
use throttle.Service.Health.{HealthStatus, get_health_status}
use throttle.Handler.{json_content, Response}

unfoldable pub health_response : HealthStatus → Response HealthStatus
health_response s = record {
  status = elim s.error [ none ↦ 200 | some e ↦ 503 ];
  headers = json_content ∷ [];
  body = s;
}

module _ {F W : Type 0} (store : Store F W) (clock : Clock W) where
  unfoldable pub health_check : Exec W (Response HealthStatus)
  unfolding health_response get_health_status
  health_check = do s ← get_health_status store clock; pure (health_response s)

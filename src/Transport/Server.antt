-- ===== src/Transport/Server.antt =====
-- internal/transport/interface.go: what the HTTP and the gRPC server are made from.
use throttle.Prelude.{String, []}
use throttle.Int.{ℤ}
use throttle.Dict.{Dict}
use throttle.Storage.{Store}
use throttle.Service.Limiters.{Limiter}

-- `ServerConfig` without its logger; the timeouts are in seconds.
pub record ServerConfig (F W : Type 0) : Type 0 where
  pub address : String
  pub store : Store F W
  pub read_timeout : ℤ
  pub write_timeout : ℤ
  pub idle_timeout : ℤ

-- A call of a package or of the system that does not panic.
abbrev pub Call : Type 0 → Type 0 → Type 0
Call W A = W → A × W

-- `createServices`: both services are over the store of the configuration, and the rate limit
-- service begins with a map of limiters of its own.
pub record Services (F W : Type 0) : Type 0 where
  pub store : Store F W
  pub limiters : Dict (Limiter F)

abbrev pub create_services : {F W : Type 0} → ServerConfig F W → Services F W
create_services cfg = record { store = cfg.store; limiters = [] }

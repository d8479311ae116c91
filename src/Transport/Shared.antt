-- ===== src/Transport/Shared.antt =====
-- The HTTP and the gRPC server of cmd/server/main.go side by side: they are made over one store, and
-- `createServices` of internal/transport/interface.go gives each a rate limit service of its own.
pub mod Reports
mod Tests
use throttle.Dict.{Dict}
use throttle.Exec.{Exec}
use throttle.Service.Limiters.{Limiter, Service}

pub record Servers (F W : Type 0) : Type 0 where
  pub http_limiters : Dict (Limiter F)
  pub grpc_limiters : Dict (Limiter F)
  pub world : W

module _ {F W A : Type 0} where
  -- A handler of the HTTP server.
  unfoldable pub on_http : Exec (Service F W) A → Exec (Servers F W) A
  on_http m s =
      let (r, service) = m (record { limiters = s.http_limiters; world = s.world }) in
      (r, record s { http_limiters = service.limiters; world = service.world })

  -- A method of the gRPC server.
  unfoldable pub on_grpc : Exec (Service F W) A → Exec (Servers F W) A
  on_grpc m s =
      let (r, service) = m (record { limiters = s.grpc_limiters; world = s.world }) in
      (r, record s { grpc_limiters = service.limiters; world = service.world })

-- ===== src/Transport/Http.antt =====
-- internal/transport/http.go
use throttle.Prelude.{String, List, [], ◌∷◌}
use throttle.Int.{ℤ}
use throttle.Int64.{mul64}
use throttle.Exec.{Result, ok, Exec, returns, pure}
use throttle.Time.{second}
use throttle.Transport.Server.{ServerConfig, Services, Call, create_services}

-- The handlers that routes lead to.
pub data Endpoint : Type 0 where
  health : Endpoint
  set : Endpoint
  check : Endpoint
  status : Endpoint
  reset : Endpoint

-- A path pattern of gorilla/mux with the one method that it is registered for.
pub record Route : Type 0 where
  pub path : String
  pub method : String
  pub endpoint : Endpoint

-- `registerRoutes`
abbrev pub routes : List Route
routes =
    record { path = "/health"; method = "GET"; endpoint = health }
    ∷ record { path = "/ratelimit/set"; method = "POST"; endpoint = set }
    ∷ record { path = "/ratelimit/check"; method = "POST"; endpoint = check }
    ∷ record { path = "/ratelimit/status/{key}"; method = "GET"; endpoint = status }
    ∷ record { path = "/ratelimit/reset/{key}"; method = "DELETE"; endpoint = reset }
    ∷ []

-- `HTTPServer` with the fields that it sets of its `http.Server`.
pub record HttpServer (F W : Type 0) : Type 0 where
  pub address : String
  pub services : Services F W
  pub router : List Route
  pub read_timeout : ℤ
  pub write_timeout : ℤ
  pub idle_timeout : ℤ

unfoldable pub new_http_server : {F W : Type 0} → ServerConfig F W → HttpServer F W
new_http_server cfg = record {
  address = cfg.address;
  services = create_services cfg;
  router = routes;
  read_timeout = mul64 cfg.read_timeout second;
  write_timeout = mul64 cfg.write_timeout second;
  idle_timeout = mul64 cfg.idle_timeout second;
}

module _ {F W : Type 0} where
  -- `Start`: `listen_and_serve` begins the goroutine, whose errors are only logged.
  unfoldable pub start :
      (HttpServer F W → Call W (Unit {0})) → HttpServer F W → Exec W (Result (Unit {0}))
  start listen_and_serve hs w = pure (ok tt) (listen_and_serve hs w).1

  -- `Stop`: `shutdown` is `http.Server.Shutdown`.
  unfoldable pub stop :
      (HttpServer F W → Call W (Result (Unit {0}))) → HttpServer F W → Exec W (Result (Unit {0}))
  stop shutdown hs w = let (r, w') = shutdown hs w in (returns r, w')

  abbrev pub addr : HttpServer F W → String
  addr hs = hs.address

-- ===== src/Transport/Grpc/Server.antt =====
-- internal/transport/grpc.go: the server that the two services are registered on.
use throttle.Prelude.{String, Option, none, some, List, [], ◌∷◌}
use mathlib.Core.List.{◌++◌}
use throttle.Exec.{Error, Result, ok, err, Exec, pure}
use throttle.Storage.{Store}
use throttle.Transport.Server.{ServerConfig, Services, Call, create_services}

-- What a `grpc.Server` serves: the health service asks the store, the other one the rate limiters.
pub data Registration (F W : Type 0) : Type 0 where
  health : Store F W → Registration F W
  rate_limit : Services F W → Registration F W

pub record GrpcServer (F W : Type 0) : Type 0 where
  pub address : String
  pub services : Services F W
  pub registered : List (Registration F W)

-- `registerServices`
abbrev register_services : {F W : Type 0} → GrpcServer F W → GrpcServer F W
register_services gs = record gs {
  registered = gs.registered ++ (health gs.services.store ∷ rate_limit gs.services ∷ []);
}

abbrev pub new_grpc_server : {F W : Type 0} → ServerConfig F W → GrpcServer F W
new_grpc_server cfg =
    register_services
      (record { address = cfg.address; services = create_services cfg; registered = [] })

-- The calls of the packages net and grpc. `graceful_stop` ends with the error of the context if that
-- is done before the last call has been served.
pub record Network (W : Type 0) : Type 0 where
  pub listen : String → Call W (Result (Unit {0}))
  pub serve : Call W (Unit {0})
  pub graceful_stop : Call W (Option Error)
  pub stop_now : Call W (Unit {0})

module _ {W : Type 0} (net : Network W) where
  abbrev serve_if : Result (Unit {0}) → Exec W (Result (Unit {0}))
  serve_if (ok _) w = pure (ok tt) (net.serve w).1
  serve_if (err e) w = pure (err e) w

  -- `Start`
  unfoldable pub start : {F : Type 0} → GrpcServer F W → Exec W (Result (Unit {0}))
  start gs w = let (listening, w') = net.listen gs.address w in serve_if listening w'

  -- The `select` of `Stop`.
  abbrev stopped_or_forced : Option Error → Exec W (Result (Unit {0}))
  stopped_or_forced none w = pure (ok tt) w
  stopped_or_forced (some e) w = pure (err e) (net.stop_now w).1

  unfoldable pub stop : {F : Type 0} → GrpcServer F W → Exec W (Result (Unit {0}))
  stop gs w = let (ended, w') = net.graceful_stop w in stopped_or_forced ended w'

abbrev pub addr : {F W : Type 0} → GrpcServer F W → String
addr gs = gs.address

-- ===== src/Main.antt =====
-- cmd/server/main.go
pub mod Exits
pub mod Timeouts
mod Tests
use throttle.Prelude.{ℕ, String, Option, none, some, ◌*◌}
use throttle.Int.{ℤ, pos}
use throttle.Exec.{
  Error, Result, ok, err, Outcome, returns, panics, Exec, pure, or_return, ◌>>=◌, ◌>>◌,
}
use throttle.Float64.{Float64}
use throttle.Storage.{Store}
use throttle.Storage.Redis.{Client, Options, new_redis_store, redis_store}
use throttle.Config.{
  Config, Environment, Parsers, load, load_dot_env, init_logger, redis_addr, http_server_addr,
  grpc_server_addr,
}
use throttle.Transport.Server.{ServerConfig, Call}
use throttle.Transport.Http
use throttle.Transport.Http.{HttpServer, new_http_server}
use throttle.Transport.Grpc.Server.{GrpcServer, Network, new_grpc_server}
use throttle.Transport.Grpc.Server as Grpc

-- The system and the packages as `main` uses them.
pub record Platform (F W Level Logger : Type 0) : Type 0 where
  pub environment : Environment
  pub dot_env : Result (Unit {0})
  pub load_file : Environment → Environment
  pub parsers : Parsers
  pub unmarshal_text : String → Result Level
  pub build : Level → String → Result Logger
  pub new_client : Options → Client F W
  pub listen_and_serve : HttpServer F W → Call W (Unit {0})
  pub shutdown : HttpServer F W → Call W (Result (Unit {0}))
  pub network : Network W
  -- The world in which SIGINT or SIGTERM has come; `none` if neither ever comes.
  pub wait_for_signal : W → Option W

-- How a run ends: with an exit status, with a panic, or not at all, blocked at `<-quit`.
pub data End : Type 0 where
  exits : ℕ → End
  panicked : End
  waiting : End

module _ {F : Type 0} (float : Float64 F) where
  -- `int(d.Seconds())`
  abbrev pub in_seconds : ℤ → ℤ
  in_seconds d = float.to_int (float.seconds d)

  abbrev pub http_config : {W : Type 0} → Config → Store F W → ServerConfig F W
  http_config cfg store = record {
    address = http_server_addr cfg;
    store = store;
    read_timeout = in_seconds cfg.http_server.read_timeout;
    write_timeout = in_seconds cfg.http_server.write_timeout;
    idle_timeout = in_seconds cfg.http_server.idle_timeout;
  }

abbrev pub grpc_config : {F W : Type 0} → Config → Store F W → ServerConfig F W
grpc_config cfg store = record {
  address = grpc_server_addr cfg;
  store = store;
  read_timeout = pos 0;
  write_timeout = pos 0;
  idle_timeout = pos 0;
}

abbrev pub loaded : {F W Level Logger : Type 0} → Platform F W Level Logger → Config
loaded p = load p.parsers (load_dot_env p.dot_env p.load_file p.environment)

module _ {F W Level Logger : Type 0} (float : Float64 F) (p : Platform F W Level Logger) where
  abbrev pub http_server : Client F W → HttpServer F W
  http_server client = new_http_server (http_config float (loaded p) (redis_store client))

  abbrev pub grpc_server : Client F W → GrpcServer F W
  grpc_server client = new_grpc_server (grpc_config (loaded p) (redis_store client))

  unfoldable pub start_servers : Client F W → Exec W (Result (Client F W))
  start_servers client = do
    http_started ← Http.start p.listen_and_serve (http_server client)
    or_return (λ e. pure (err e))
        (λ _. do
          grpc_started ← Grpc.start p.network (grpc_server client)
          or_return (λ e. pure (err e)) (λ _. pure (ok client)) grpc_started)
        http_started

  -- Up to the wait for the signal; every error is fatal.
  unfoldable pub start_up : Exec W (Result (Client F W))
  start_up =
      or_return (λ e. pure (err e))
        (λ _. do
          connected ←
              new_redis_store p.new_client (redis_addr (loaded p)) (loaded p).redis.password
                (loaded p).redis.db
          or_return (λ e. pure (err e)) start_servers connected)
        (init_logger p.unmarshal_text p.build (loaded p).log.level (loaded p).log.format)

  -- From the signal on; the store is closed as `main` returns.
  unfoldable pub shut_down : Client F W → Exec W (Unit {0})
  shut_down client = do
    Http.stop p.shutdown (http_server client)
    Grpc.stop p.network (grpc_server client)
    (redis_store client).close
    pure tt

  abbrev returned : Outcome (Unit {0}) × W → End × W
  returned (returns _, w) = (exits 0, w)
  returned (panics, w) = (panicked, w)

  abbrev await : Client F W → W → Option W → End × W
  await client w none = (waiting, w)
  await client w (some w') = returned (shut_down client w')

  -- `os.Exit(1)` is called at a fatal error, by `logger.Fatal` too: no deferred call is made.
  abbrev started : Outcome (Result (Client F W)) × W → End × W
  started (returns (ok client), w) = await client w (p.wait_for_signal w)
  started (returns (err e), w) = (exits 1, w)
  started (panics, w) = (panicked, w)

  unfoldable pub main : W → End × W
  main w = started (start_up w)

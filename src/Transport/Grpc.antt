-- ===== src/Transport/Grpc.antt =====
-- internal/transport/grpc.go: the two services that are reached over gRPC.
pub mod Messages
pub mod Watching
pub mod Server
mod Tests
use throttle.Prelude.{String, Bool, true, false, Option, none, some, List, [], ◌∷◌}
use throttle.Int.{ℤ}
use throttle.Int32.{wrap32}
use throttle.Exec.{Error, Result, ok, err, Exec, pure, panic, or_return, ◌>>=◌}
use throttle.Time.{Clock}
use throttle.Float64.{Float64}
use throttle.Storage.{Store}
use throttle.Service.Config.{RateLimitConfig}
use throttle.Service.Limiters.{Codecs, Service, in_world}
use throttle.Service.RateLimit.{set_config, check_limit, get_status, reset_limit}
use throttle.Service.Health.{ping}

-- The message `RateLimitConfig`; its last three fields are `int32`s.
pub record ProtoConfig : Type 0 where
  pub algorithm : String
  pub limit : ℤ
  pub window_seconds : ℤ
  pub refill_rate : ℤ
  pub refill_interval : ℤ

-- `SetRequest`; the pointer to the configuration is nil if the client sends none.
pub record SetRequest : Type 0 where
  pub key : String
  pub config : Option ProtoConfig

-- `SetResponse` and `ResetResponse`
pub record Acknowledgement : Type 0 where
  pub message : String
  pub key : String

pub record CheckResponse : Type 0 where
  pub allowed : Bool
  pub remaining : ℤ
  pub reset_at : ℤ
  pub retry_after : ℤ

pub record StatusResponse : Type 0 where
  pub key : String
  pub algorithm : String
  pub config : ProtoConfig
  pub created_at : ℤ
  pub updated_at : ℤ
  pub next_reset : ℤ

unfoldable pub proto_config_to_service : ProtoConfig → RateLimitConfig
proto_config_to_service pb_config = record {
  algorithm = pb_config.algorithm;
  limit = pb_config.limit;
  window_seconds = pb_config.window_seconds;
  refill_rate = pb_config.refill_rate;
  refill_interval = pb_config.refill_interval;
}

unfoldable pub service_config_to_proto : RateLimitConfig → ProtoConfig
service_config_to_proto cfg = record {
  algorithm = cfg.algorithm;
  limit = cfg.limit;
  window_seconds = wrap32 cfg.window_seconds;
  refill_rate = wrap32 cfg.refill_rate;
  refill_interval = wrap32 cfg.refill_interval;
}

module _ {F W : Type 0} (float : Float64 F) (store : Store F W) (clock : Clock W)
    (json : Codecs F) where
  -- A nil pointer is dereferenced without a check.
  unfoldable pub set : SetRequest → Exec (Service F W) (Result Acknowledgement)
  set req = elim req.config [
    | none ↦ panic
    | some pb_config ↦ do
      saved ←
          in_world (set_config float store clock json req.key (proto_config_to_service pb_config))
      or_return (λ e. pure (err e))
          (λ _. pure (ok (record { message = "rate limit configured"; key = req.key }))) saved
  ]

  unfoldable pub check : String → Exec (Service F W) (Result CheckResponse)
  check key = do
    result ← check_limit float store clock json key
    or_return (λ e. pure (err e))
        (λ resp. pure (
          ok (record {
            allowed = resp.allowed;
            remaining = resp.remaining;
            reset_at = resp.reset_at;
            retry_after = wrap32 resp.retry_after;
          })))
        result

  unfoldable pub status : String → Exec (Service F W) (Result StatusResponse)
  status key = do
    result ← in_world (get_status float store clock json key)
    or_return (λ e. pure (err e))
        (λ resp. pure (
          ok (record {
            key = key;
            algorithm = resp.config.algorithm;
            config = service_config_to_proto resp.config;
            created_at = resp.created_at;
            updated_at = resp.updated_at;
            next_reset = resp.next_reset;
          })))
        result

  unfoldable pub reset : String → Exec (Service F W) (Result Acknowledgement)
  reset key = do
    result ← reset_limit float store clock json key
    or_return (λ e. pure (err e))
        (λ _. pure (ok (record { message = "rate limit reset"; key = key }))) result

-- `HealthCheckResponse_ServingStatus`, the values that the program sends.
pub data ServingStatus : Type 0 where
  serving : ServingStatus
  not_serving : ServingStatus

abbrev pub same_status : ServingStatus → ServingStatus → Bool
same_status serving serving = true
same_status not_serving not_serving = true
same_status _ _ = false

-- What the `select` of the loop of `Watch` takes next: a tick, or the end of the client's context.
pub data Event : Type 0 where
  tick : Event
  cancelled : Error → Event

module _ {F W : Type 0} (store : Store F W) (clock : Clock W) where
  unfoldable pub current_status : Exec W ServingStatus
  unfolding ping
  current_status = do
    reached ← ping store clock
    or_return (λ _. pure not_serving) (λ _. pure serving) reached

  -- `Check` of the health service.
  unfoldable pub health_check : Exec W ServingStatus
  unfolding current_status
  health_check = current_status

  module _ (send : ServingStatus → Exec W (Result (Unit {0}))) where
    -- The loop of `Watch`, for the events that it takes; `none` while it waits for the next.
    unfoldable pub watch_loop : ServingStatus → List Event → Exec W (Option Error)
    watch_loop status [] = pure none
    watch_loop status (cancelled e ∷ events) = pure (some e)
    watch_loop status (tick ∷ events) = do
      next_status ← current_status
      elim (same_status next_status status) [
        | true ↦ watch_loop status events
        | false ↦ do
          sent ← send next_status
          or_return (λ e. pure (some e)) (λ _. watch_loop next_status events) sent
      ]

    unfoldable pub watch : List Event → Exec W (Option Error)
    watch events = do
      status ← current_status
      sent ← send status
      or_return (λ e. pure (some e)) (λ _. watch_loop status events) sent

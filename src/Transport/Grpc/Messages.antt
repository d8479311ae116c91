-- ===== src/Transport/Grpc/Messages.antt =====
-- What survives the narrow integers of the messages.
use throttle.Prelude.{◌≡◌}
use throttle.Int32.{IsInt32, wrap32-eq}
use throttle.Service.Config.{RateLimitConfig}
use throttle.Transport.Grpc.{proto_config_to_service, service_config_to_proto}

-- The three fields that are narrowed are `int32`s.
pub record IsNarrow (cfg : RateLimitConfig) : Type 0 where
  pub window_seconds : IsInt32 cfg.window_seconds
  pub refill_rate : IsInt32 cfg.refill_rate
  pub refill_interval : IsInt32 cfg.refill_interval

-- A configuration whose three narrow fields are `int32`s survives the way into a message and back.
pub proto_config_to_service-service_config_to_proto :
    (cfg : RateLimitConfig)
    → IsNarrow cfg
    → proto_config_to_service (service_config_to_proto cfg) ≡ cfg
unfolding proto_config_to_service service_config_to_proto
proto_config_to_service-service_config_to_proto cfg narrow = rw (
  wrap32-eq cfg.window_seconds narrow.window_seconds,
  wrap32-eq cfg.refill_rate narrow.refill_rate,
  wrap32-eq cfg.refill_interval narrow.refill_interval,
)

-- ===== src/Service/RateLimit/OnRedis.antt =====
-- The service over the Redis store of internal/storage/redis.go, as cmd/server/main.go makes it.
use throttle.Prelude.{String, ◌≡◌, false, ◌==◌}
use throttle.Exec.{ok, returns}
use throttle.Time.{Clock, unix}
use throttle.Float64.{Float64}
use throttle.Codec.{IsCodecAt}
use throttle.Storage.Redis.{Client, redis_store}
use throttle.Storage.Redis.Values.{IsServer}
use throttle.Storage.Redis.KeyValue.{IsUndisturbed, redis-IsKeyValue}
use throttle.Service.Config.{RateLimitConfig, validate_config}
use throttle.Service.Limiters.{Codecs}
use throttle.Service.RateLimit.{set_config, get_config}
use throttle.Service.RateLimit.Configs.{get_config-set_config}

module _ {F W : Type 0} (float : Float64 F) (client : Client F W) (clock : Clock W)
    (json : Codecs F) where
  -- Over a Redis server that is reached without errors and that only SET and DEL change, for codecs
  -- that round-trip the configuration and its metadata: a valid configuration is accepted by
  -- `SetConfig`, `GetConfig` then answers with it for its key, and for another key with what it
  -- answered before.
  pub get_config-set_config_redis :
      (server : IsServer client) (w : W) (key other : String) (cfg : RateLimitConfig)
      → IsUndisturbed server clock
      → validate_config cfg ≡ ok tt
      → IsCodecAt json.configs cfg
      → IsCodecAt json.metadata
          (record { created_at = unix (clock.read w).0; updated_at = unix (clock.read w).0 })
      → (key == other) ≡ false
      → let store = redis_store client in
        let after = (set_config float store clock json key cfg w).1 in
        ((set_config float store clock json key cfg w).0 ≡ returns (ok tt))
        × ((get_config float store clock json key after).0 ≡ returns (ok cfg))
        × ((get_config float store clock json other after).0
            ≡ (get_config float store clock json other w).0)
  get_config-set_config_redis server w key other cfg steady valid config_law metadata_law apart =
      let (accepted, own, others) =
        get_config-set_config float (redis_store client) clock json
          (redis-IsKeyValue server clock steady) key cfg w valid config_law metadata_law in
      (accepted, own, others other apart)

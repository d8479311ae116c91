-- ===== src/Handler/RateLimit/OnRedis.antt =====
-- internal/handler/ratelimit.go over the store of internal/storage/redis.go, as cmd/server/main.go has
-- them: a configuration that is set, and the requests that follow.
mod Tests
use throttle.Prelude.{ℕ, List, String, ◌≡◌, ap, some, none, false, ◌==◌}
use throttle.Int.{ℤ, pos, ◌+ℤ◌, ◌≤ℤ◌}
use throttle.Int64.{IsInt64}
use throttle.Exec.{ok}
use throttle.Time.{Clock, unix, second}
use throttle.Float64.{Float64}
use throttle.Codec.{IsCodecAt}
use throttle.Storage.Redis.{Client, redis_store}
use throttle.Storage.Redis.Expiring.{IsExpiringServer, redis-IsExpiring, or_empty}
use throttle.Limiter.FixedWindow.{FixedWindowState, state_key}
use throttle.Service.Config.{RateLimitConfig, validate_config}
use throttle.Service.Limiters.{Codecs, Service, limiter_key, window_duration}
use throttle.Service.RateLimit.Checks.{IsFixedWindow}
use throttle.Dict
use throttle.Handler.RateLimit.Requests.{Call, own_checks, AreOthers}
use throttle.Handler.RateLimit.Answers.{
  set_request, status_code, promised, statuses, AnsweredBefore,
}
use throttle.Handler.RateLimit.Served.{statuses-set}

module _ {F W : Type 0} (float : Float64 F) (client : Client F W) (clock : Clock W)
    (json : Codecs F) (server : IsExpiringServer client clock) where
  -- Over the Redis store, whose server is reached without errors and keeps the time of its clients, for
  -- codecs that round-trip the configuration, its metadata and every window state: a valid
  -- configuration of a fixed window with a limit of `m`, less than two to the 63, is set over HTTP
  -- after the epoch, for a key that is not empty, has no window state on the server and no limiter in
  -- the service. That request is answered with the status 201. It is followed, one after the other, by
  -- checks of the key, and between them by any requests to the four handlers for other keys, and for
  -- the status of any key. If two windows and a second after the first request still fit an int64, and
  -- the checks of the key are all answered within one window's length of it, then the first `m` of them
  -- are answered with the status 200, and all others with the status 429.
  pub statuses-set_redis :
      (key : String) (cfg : RateLimitConfig) (m : ℕ) (s : Service F W) (calls : List Call)
      → ((state : FixedWindowState) → IsCodecAt json.fixed_states state)
      → IsCodecAt json.configs cfg
      → IsCodecAt json.metadata (record {
        created_at = unix (clock.read s.world).0;
        updated_at = unix (clock.read s.world).0;
      })
      → IsFixedWindow m cfg
      → validate_config cfg ≡ ok tt
      → (key == "") ≡ false
      → pos 0 ≤ℤ server.now s.world
      → ((t : ℤ) → server.held s.world (state_key key) t ≡ none)
      → Dict.lookup (limiter_key key cfg.algorithm) s.limiters ≡ none
      → IsInt64 (
          server.now (set_request float (redis_store client) clock json key cfg s).1.world
          +ℤ window_duration cfg
          +ℤ window_duration cfg
          +ℤ second)
      → AreOthers key calls
      → AnsweredBefore float
          (redis_store client)
          clock
          json
          key
          (redis-IsExpiring server)
          (server.now (set_request float (redis_store client) clock json key cfg s).1.world
            +ℤ window_duration cfg)
          calls
          (set_request float (redis_store client) clock json key cfg s).1
      → (status_code (set_request float (redis_store client) clock json key cfg s).0 ≡ some 201)
        × (statuses float
              (redis_store client)
              clock
              json
              key
              calls
              (set_request float (redis_store client) clock json key cfg s).1
            ≡ promised m (own_checks calls))
  unfolding redis-IsExpiring
  statuses-set_redis key cfg m s calls codec config_law metadata_law fw valid named after_epoch
        unset unused fits others soon =
      statuses-set float (redis_store client) clock json key (redis-IsExpiring server) codec cfg
        config_law m fw named s valid metadata_law calls after_epoch (λ t. ap or_empty (unset t))
        unused fits others soon

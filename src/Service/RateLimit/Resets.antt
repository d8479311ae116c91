-- ===== src/Service/RateLimit/Resets.antt =====
-- What `ResetLimit` leaves of a key.
use throttle.Prelude.{String, ◌≡◌, refl, false, arith, ◌==◌, eq_refl, if◌then◌else◌}
use throttle.Exec.{ok, err, not_found, returns}
use throttle.Time.{Clock}
use throttle.Float64.{Float64}
use throttle.Storage.{Store}
use throttle.Storage.KeyValue.{IsKeyValue}
use throttle.Limiter.TokenBucket
use throttle.Limiter.SlidingWindow
use throttle.Limiter.FixedWindow
use throttle.Limiter.LeakyBucket
use throttle.Service.Config.{RateLimitConfig}
use throttle.Service.Config.Validity.{IsValid}
use throttle.Service.Limiters.{
  Codecs, Limiter, token, sliding, fixed, leaky, Service, config_key, metadata_key, limiter_key,
  get_or_create_limiter,
}
use throttle.Service.Limiters.Creation.{get_or_create_limiter_total}
use throttle.Service.RateLimit.{as_rate_limiter, get_config, reset_limit}
use throttle.Service.RateLimit.Configs.{
  config_key-eq, metadata-ne-config, clash-eq, get_config_same,
}

module _ {F W : Type 0} (float : Float64 F) (store : Store F W) (clock : Clock W) (json : Codecs F)
    (kv : IsKeyValue store clock) where
  pub get_config_empty :
      (w : W) (key : String)
      → kv.value w (config_key key) ≡ ""
      → (get_config float store clock json key w).0 ≡ returns (err not_found)
  unfolding get_config
  get_config_empty w key gone = rw (kv.get_answer w (config_key key), gone)

  get_config_world :
      (w : W) (key : String)
      → (get_config float store clock json key w).1 ≡ (store.get (config_key key) w).1
  unfolding get_config
  get_config_world w key = rw (kv.get_answer w (config_key key)) (ground arith)

  -- The key of a limiter's state.
  abbrev pub state_key_of : Limiter F → String → String
  state_key_of (token tb) key = TokenBucket.state_key key
  state_key_of (sliding sw) key = SlidingWindow.state_key key
  state_key_of (fixed fw) key = FixedWindow.state_key key
  state_key_of (leaky lb) key = LeakyBucket.state_key key

  reset_lem :
      (lim : Limiter F) (key : String) (w : W)
      → (as_rate_limiter float store clock json lim).reset key w
        ≡ (returns (ok tt), (store.delete (state_key_of lim key) w).1)
  unfolding as_rate_limiter TokenBucket.reset SlidingWindow.reset FixedWindow.reset
      LeakyBucket.reset
  reset_lem (token tb) key w = ground (arith, kv.delete_answer w (TokenBucket.state_key key))
  reset_lem (sliding sw) key w = ground (arith, kv.delete_answer w (SlidingWindow.state_key key))
  reset_lem (fixed fw) key w = ground (arith, kv.delete_answer w (FixedWindow.state_key key))
  reset_lem (leaky lb) key w = ground (arith, kv.delete_answer w (LeakyBucket.state_key key))

  state-ne-config :
      (lim : Limiter F) (key j : String) → (state_key_of lim key == config_key j) ≡ false
  unfolding config_key TokenBucket.state_key SlidingWindow.state_key FixedWindow.state_key
      LeakyBucket.state_key
  state-ne-config (token tb) key j = clash-eq "limiter:token_bucket:" "ratelimit:config:" key j refl
  state-ne-config (sliding sw) key j =
      clash-eq "limiter:sliding_window:" "ratelimit:config:" key j refl
  state-ne-config (fixed fw) key j = clash-eq "limiter:fixed_window:" "ratelimit:config:" key j refl
  state-ne-config (leaky lb) key j = clash-eq "limiter:leaky_bucket:" "ratelimit:config:" key j refl

  module _ (key : String) (cfg : RateLimitConfig) (s : Service F W)
      (found : (get_config float store clock json key s.world).0 ≡ returns (ok cfg))
      (valid : IsValid cfg) where
    -- The service after the lookup of the configuration.
    abbrev looked_up : Service F W
    looked_up = record s { world = (get_config float store clock json key s.world).1 }

    module _ (lim : Limiter F) (made : Service F W)
        (creates : get_or_create_limiter float (limiter_key key cfg.algorithm) cfg looked_up
          ≡ (returns (ok lim), made)) where
      abbrev state_deleted : W
      state_deleted = (store.delete (state_key_of lim key) made.world).1

      abbrev config_deleted : W
      config_deleted = (store.delete (config_key key) state_deleted).1

      abbrev all_deleted : W
      all_deleted = (store.delete (metadata_key key) config_deleted).1

      reset_run :
          reset_limit float store clock json key s
          ≡ (returns (ok tt), record made { world = all_deleted })
      unfolding reset_limit
      reset_run = ground (
        arith,
        found,
        creates,
        reset_lem lim key made.world,
        kv.delete_answer state_deleted (config_key key),
        kv.delete_answer config_deleted (metadata_key key),
      )

      all_deleted-value :
          (j : String)
          → kv.value all_deleted (config_key j)
            ≡ (if key == j then "" else kv.value made.world (config_key j))
      all_deleted-value j = rw (
        kv.delete_value config_deleted (metadata_key key) (config_key j),
        metadata-ne-config key j,
        kv.delete_value state_deleted (config_key key) (config_key j),
        config_key-eq key j,
        kv.delete_value made.world (state_key_of lim key) (config_key j),
        state-ne-config lim key j,
      )

    looked_up-value :
        (j : String) → kv.value looked_up.world (config_key j) ≡ kv.value s.world (config_key j)
    looked_up-value j =
        rw (get_config_world s.world key, kv.get_value s.world (config_key key) (config_key j))

    -- Over a key-value store a key with a valid configuration is reset without an error, and then has no configuration; what
    -- `GetConfig` answers for every other key is what it answered before.
    pub reset_limit-get_config :
        let after = (reset_limit float store clock json key s).1.world in
        ((reset_limit float store clock json key s).0 ≡ returns (ok tt))
        × ((get_config float store clock json key after).0 ≡ returns (err not_found))
        × ((j : String)
            → (key == j) ≡ false
            → (get_config float store clock json j after).0
              ≡ (get_config float store clock json j s.world).0)
    reset_limit-get_config =
        let (lim, made, creates, same) =
          get_or_create_limiter_total float (limiter_key key cfg.algorithm) cfg looked_up valid in
        let after = all_deleted lim made creates in
        rw (reset_run lim made creates) (
          refl,
          get_config_empty after key (rw (all_deleted-value lim made creates key, eq_refl key)),
          λ j other.
              get_config_same float store clock json kv after s.world j
                (rw (all_deleted-value lim made creates j, other, same) (looked_up-value j)),
        )

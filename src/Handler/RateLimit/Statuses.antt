-- ===== src/Handler/RateLimit/Statuses.antt =====
-- The status codes of the handlers.
use throttle.Prelude.{String, ◌≡◌, false, arith, ◌==◌}
use throttle.Exec.{Error, ok, err, not_found, returns}
use throttle.Time.{Clock}
use throttle.Float64.{Float64}
use throttle.Storage.{Store}
use throttle.Storage.KeyValue.{IsKeyValue}
use throttle.Service.Config.{RateLimitConfig, validate_config}
use throttle.Service.Limiters.{Codecs, Service, config_key}
use throttle.Service.RateLimit.{set_config, check_limit, get_status, reset_limit}
use throttle.Service.RateLimit.Resets.{get_config_empty}
use throttle.Handler.{Response}
use throttle.Handler.RateLimit.{
  Body, write_error, fixed_error, reported, set, check, status, reset_handler,
}

-- The answer to a key without a configuration.
abbrev pub not_configured : Response Body
not_configured = write_error 404 (reported not_found)

module _ {F W : Type 0} (float : Float64 F) (store : Store F W) (clock : Clock W)
    (json : Codecs F) where
  -- A configuration that `ValidateConfig` refuses is answered with the status 500, and nothing is
  -- stored.
  pub set_invalid :
      (s : Service F W) (key : String) (cfg : RateLimitConfig) (e : Error)
      → validate_config cfg ≡ err e
      → set float store clock json (ok (record { key = key; config = cfg })) s
        ≡ (returns (write_error 500 (fixed_error "failed to save configuration")), s)
  unfolding set set_config
  set_invalid s key cfg e refused = ground (arith, refused)

  module _ (kv : IsKeyValue store clock) where
    -- Over a key-value store a key that is not empty and has no configuration is answered with the
    -- status 404 by the check, the status and the reset handler alike.
    pub handlers_unknown :
        (s : Service F W) (key algorithm : String)
        → (key == "") ≡ false
        → kv.value s.world (config_key key) ≡ ""
        → ((check float store clock json (ok (record { key = key; algorithm = algorithm })) s).0
            ≡ returns not_configured)
          × ((status float store clock json key s).0 ≡ returns not_configured)
          × ((reset_handler float store clock json key s).0 ≡ returns not_configured)
    unfolding check status reset_handler check_limit get_status reset_limit
    handlers_unknown s key algorithm named unknown =
        let missing = get_config_empty float store clock json kv s.world key unknown in
        (
          ground (arith, named, missing),
          ground (arith, named, missing),
          ground (arith, named, missing),
        )

-- ===== src/Service/RateLimit/Reports.antt =====
-- What `GetStatus` reports of a configuration that was set.
use throttle.Prelude.{String, ◌≡◌, ◌≢◌, refl, sym, ap, ◌∙◌, arith, eq_iff}
use throttle.Int.{ℤ, pos, ◌<ℤ◌}
use throttle.Int64.{mul64, add64}
use throttle.Exec.{ok, returns}
use throttle.Time.{Clock, unix}
use throttle.Float64.{Float64}
use throttle.Codec.{IsCodecAt}
use throttle.Storage.{Store}
use throttle.Storage.KeyValue.{IsKeyValue}
use throttle.Service.Config.{RateLimitConfig, validate_config}
use throttle.Service.Config.Validity.{validate_config_iff}
use throttle.Service.Limiters.{
  Codecs, GetStatusResponse, RateLimitMetadata, config_key, metadata_key,
}
use throttle.Service.Limiters.Creation.{div64_total}
use throttle.Service.RateLimit.{
  get_config, get_status, parse_metadata, calculate_reset_at, next_window_start,
}
use throttle.Service.RateLimit.Configs.{set_world, own_value, own_metadata}

module _ {F W : Type 0} (float : Float64 F) (store : Store F W) (clock : Clock W)
    (json : Codecs F) where
  -- A window that is not zero leaves nothing to panic.
  pub reset_at_returns :
      (cfg : RateLimitConfig) (w : W)
      → pos 0 <ℤ cfg.window_seconds
      → (next_reset : ℤ) × (calculate_reset_at float store clock json cfg w
          ≡ (returns next_reset, (clock.read w).1))
  unfolding calculate_reset_at next_window_start
  reset_at_returns cfg w positive =
      let (q, e) = div64_total (unix (clock.read w).0) cfg.window_seconds positive in
      (mul64 (add64 q (pos 1)) cfg.window_seconds, rw e refl)

  module _ (kv : IsKeyValue store clock) where
    get_config_run :
        (w : W) (key : String) (cfg : RateLimitConfig)
        → kv.value w (config_key key) ≢ ""
        → json.configs.unmarshal (kv.value w (config_key key)) ≡ ok cfg
        → get_config float store clock json key w
          ≡ (returns (ok cfg), (store.get (config_key key) w).1)
    unfolding get_config
    get_config_run w key cfg some_text parses =
        ground (arith, kv.get_answer w (config_key key), eq_iff (kv.value w (config_key key)) "")

    parse_metadata_run :
        (w : W) (key : String) (m : RateLimitMetadata)
        → kv.value w (metadata_key key) ≢ ""
        → json.metadata.unmarshal (kv.value w (metadata_key key)) ≡ ok m
        → parse_metadata float store clock json key w
          ≡ (returns (ok m), (store.get (metadata_key key) w).1)
    unfolding parse_metadata
    parse_metadata_run w key m some_text parses =
        ground
          (arith, kv.get_answer w (metadata_key key), eq_iff (kv.value w (metadata_key key)) "")

    module _ (key : String) (cfg : RateLimitConfig) (w : W) (valid : validate_config cfg ≡ ok tt)
        (config_law : IsCodecAt json.configs cfg)
        (metadata_law : IsCodecAt json.metadata
          (record { created_at = unix (clock.read w).0; updated_at = unix (clock.read w).0 })) where
      abbrev set_at : W
      set_at = set_world float store clock json kv key cfg w valid config_law metadata_law

      -- What `GetStatus` answers: the configuration and the time at which it was set.
      abbrev pub report : ℤ → GetStatusResponse
      report next_reset = record {
        config = cfg;
        created_at = unix (clock.read w).0;
        updated_at = unix (clock.read w).0;
        next_reset = next_reset;
      }

      pub get_status_run :
          (next_reset : ℤ) × ((get_status float store clock json key set_at).0
            ≡ returns (ok (report next_reset)))
      unfolding get_status
      get_status_run =
          let config_text =
            own_value float store clock json kv key cfg w valid config_law metadata_law in
          let metadata_text =
            own_metadata float store clock json kv key cfg w valid config_law metadata_law in
          let w' = (store.get (config_key key) set_at).1 in
          let w'' = (store.get (metadata_key key) w').1 in
          let same = kv.get_value set_at (config_key key) (metadata_key key) ∙ metadata_text in
          let (next_reset, e) =
            reset_at_returns cfg w'' ((validate_config_iff cfg).0 valid).window_pos in
          (
            next_reset,
            rw
                (
                  get_config_run set_at key cfg (λ h. config_law.nonempty (sym config_text ∙ h))
                      (ap json.configs.unmarshal config_text ∙ config_law.unmarshals),
                  parse_metadata_run w' key _ (λ h. metadata_law.nonempty (sym same ∙ h))
                      (ap json.metadata.unmarshal same ∙ metadata_law.unmarshals),
                  e,
                )
                refl,
          )

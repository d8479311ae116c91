-- ===== src/Service/RateLimit/Configured.antt =====
-- internal/service/ratelimit.go: what `SetConfig` leaves in a store with expirations.
use throttle.Prelude.{String, ◌≡◌, refl, ◌∙◌, arith, ◌==◌, false}
use throttle.Int.{ℤ, pos, ◌≤ℤ◌}
use throttle.Exec.{ok, returns}
use throttle.Time.{Clock, unix}
use throttle.Float64.{Float64}
use throttle.Codec.{IsCodecAt}
use throttle.Storage.{Store}
use throttle.Storage.Expiring.{IsExpiring}
use throttle.Limiter.FixedWindow.{state_key}
use throttle.Service.Config.{RateLimitConfig, validate_config}
use throttle.Service.Limiters.{Codecs, config_key, metadata_key}
use throttle.Service.RateLimit.{set_config}
use throttle.Service.RateLimit.Configs.{clash-eq, metadata-ne-config}

pub metadata-ne-state : (k j : String) → (metadata_key k == state_key j) ≡ false
unfolding metadata_key state_key
metadata-ne-state k j = clash-eq "ratelimit:metadata:" "limiter:fixed_window:" k j refl

pub config-ne-state : (k j : String) → (config_key k == state_key j) ≡ false
unfolding config_key state_key
config-ne-state k j = clash-eq "ratelimit:config:" "limiter:fixed_window:" k j refl

module _ {F W : Type 0} (float : Float64 F) (store : Store F W) (clock : Clock W) (json : Codecs F)
    (ex : IsExpiring store clock) (key : String) (cfg : RateLimitConfig) (w : W)
    (valid : validate_config cfg ≡ ok tt) (config_law : IsCodecAt json.configs cfg)
    (metadata_law : IsCodecAt json.metadata
      (record { created_at = unix (clock.read w).0; updated_at = unix (clock.read w).0 })) where
  abbrev stored : W
  stored = (store.set (config_key key) config_law.text (pos 0) (clock.read w).1).1

  abbrev pub configured : W
  configured = (store.set (metadata_key key) metadata_law.text (pos 0) stored).1

  pub set_config_run : set_config float store clock json key cfg w ≡ (returns (ok tt), configured)
  unfolding set_config
  set_config_run = ground (
    arith,
    valid,
    config_law.marshals,
    metadata_law.marshals,
    ex.set_answer (clock.read w).1 (config_key key) config_law.text (pos 0),
    ex.set_answer stored (metadata_key key) metadata_law.text (pos 0),
  )

  pub configured_later : ex.now w ≤ℤ ex.now configured
  configured_later = omega (
    arith,
    ex.read_later w,
    ex.set_later (clock.read w).1 (config_key key) config_law.text (pos 0),
    ex.set_later stored (metadata_key key) metadata_law.text (pos 0),
  )

  pub configured_shown : (t : ℤ) → ex.shown configured (config_key key) t ≡ config_law.text
  configured_shown t =
      ex.set_others stored (metadata_key key) (config_key key) metadata_law.text (pos 0) t
        (metadata-ne-config key key)
      ∙ ex.set_kept (clock.read w).1 (config_key key) config_law.text t

  pub configured_states :
      (j : String) (t : ℤ) → ex.shown configured (state_key j) t ≡ ex.shown w (state_key j) t
  configured_states j t =
      ex.set_others stored (metadata_key key) (state_key j) metadata_law.text (pos 0) t
        (metadata-ne-state key j)
      ∙ ex.set_others (clock.read w).1 (config_key key) (state_key j) config_law.text (pos 0) t
          (config-ne-state key j)
      ∙ ex.read_shown w (state_key j) t

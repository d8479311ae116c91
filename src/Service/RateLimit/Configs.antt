-- ===== src/Service/RateLimit/Configs.antt =====
-- What `GetConfig` answers after `SetConfig`.
use throttle.Prelude.{
  true, String, ◌≡◌, ◌≢◌, refl, ap, ◌∙◌, sym, false, arith, ◌==◌, eq_iff, eq_refl, if◌then◌else◌,
  append-ne-append_of_clash, clash, Bool-cases, inl, inr,
}
use Prim.Native.String.{◌++◌}
use text.Mathlib.TextLemmas.{append_cancel_left}
use throttle.Int.{pos}
use throttle.Exec.{ok, returns}
use throttle.Time.{Clock, unix}
use throttle.Float64.{Float64}
use throttle.Codec.{IsCodecAt}
use throttle.Storage.{Store}
use throttle.Storage.KeyValue.{IsKeyValue}
use throttle.Service.Config.{RateLimitConfig, validate_config}
use throttle.Service.Limiters.{Codecs, config_key, metadata_key}
use throttle.Service.RateLimit.{set_config, get_config}

config_key_inj : (k j : String) → config_key k ≡ config_key j → k ≡ j
unfolding config_key
config_key_inj k j e = append_cancel_left "ratelimit:config:" k j e

pub config_key-eq : (k j : String) → (config_key k == config_key j) ≡ (k == j)
config_key-eq k j = elim (Bool-cases (k == j)) [
  | inl same ↦ rw ((eq_iff k j).0 same, eq_refl (config_key j), eq_refl j)
  | inr other ↦
      rw other (
        ground (arith, eq_iff (config_key k) (config_key j), config_key_inj k j, eq_iff k j, other))
]

pub clash-eq : (p q k j : String) → clash p q ≡ true → ((p ++ k) == (q ++ j)) ≡ false
clash-eq p q k j h = ground (arith, eq_iff (p ++ k) (q ++ j), append-ne-append_of_clash p q k j h)

pub metadata-ne-config : (k j : String) → (metadata_key k == config_key j) ≡ false
unfolding metadata_key config_key
metadata-ne-config k j = clash-eq "ratelimit:metadata:" "ratelimit:config:" k j refl

module _ {F W : Type 0} (float : Float64 F) (store : Store F W) (clock : Clock W) (json : Codecs F)
    (kv : IsKeyValue store clock) where
  pub get_config_same :
      (w w' : W) (key : String)
      → kv.value w (config_key key) ≡ kv.value w' (config_key key)
      → (get_config float store clock json key w).0 ≡ (get_config float store clock json key w').0
  unfolding get_config
  get_config_same w w' key same =
      ground (arith, kv.get_answer w (config_key key), kv.get_answer w' (config_key key))

  get_config_lem :
      (w : W) (key : String) (cfg : RateLimitConfig)
      → kv.value w (config_key key) ≢ ""
      → json.configs.unmarshal (kv.value w (config_key key)) ≡ ok cfg
      → (get_config float store clock json key w).0 ≡ returns (ok cfg)
  unfolding get_config
  get_config_lem w key cfg some_text parses =
      ground (arith, kv.get_answer w (config_key key), eq_iff (kv.value w (config_key key)) "")

  module _ (key : String) (cfg : RateLimitConfig) (w : W) (valid : validate_config cfg ≡ ok tt)
      (config_law : IsCodecAt json.configs cfg)
      (metadata_law : IsCodecAt json.metadata
        (record { created_at = unix (clock.read w).0; updated_at = unix (clock.read w).0 })) where
    pub set_world : W
    set_world =
        (store.set (metadata_key key) metadata_law.text (pos 0)
          (store.set (config_key key) config_law.text (pos 0) (clock.read w).1).1).1

    pub set_config_lem : set_config float store clock json key cfg w ≡ (returns (ok tt), set_world)
    unfolding set_config set_world
    set_config_lem = ground (
      arith,
      valid,
      config_law.marshals,
      metadata_law.marshals,
      kv.set_answer (clock.read w).1 (config_key key) config_law.text,
      kv.set_answer (store.set (config_key key) config_law.text (pos 0) (clock.read w).1).1
          (metadata_key key) metadata_law.text,
    )

    -- What every configuration's key holds after a `SetConfig`.
    set_world-value :
        (j : String)
        → kv.value set_world (config_key j)
          ≡ (if key == j then config_law.text else kv.value w (config_key j))
    unfolding set_world
    set_world-value j = rw (
      kv.set_value _ (metadata_key key) (config_key j) metadata_law.text,
      metadata-ne-config key j,
      kv.set_value _ (config_key key) (config_key j) config_law.text,
      config_key-eq key j,
      kv.read_value w (config_key j),
    )

    pub own_metadata : kv.value set_world (metadata_key key) ≡ metadata_law.text
    unfolding set_world
    own_metadata = rw (
      kv.set_value _ (metadata_key key) (metadata_key key) metadata_law.text,
      eq_refl (metadata_key key),
    )

    pub own_value : kv.value set_world (config_key key) ≡ config_law.text
    own_value = rw (set_world-value key, eq_refl key)

    -- Over a key-value store, for codecs that round-trip the configuration and its metadata: a valid
    -- configuration is accepted, and is then what `GetConfig` answers for its key; what it
    -- answers for every other key is what it answered before.
    pub get_config-set_config :
        let after = (set_config float store clock json key cfg w).1 in
        ((set_config float store clock json key cfg w).0 ≡ returns (ok tt))
        × ((get_config float store clock json key after).0 ≡ returns (ok cfg))
        × ((j : String)
            → (key == j) ≡ false
            → (get_config float store clock json j after).0
              ≡ (get_config float store clock json j w).0)
    get_config-set_config = rw set_config_lem (
      refl,
      get_config_lem set_world key cfg (λ e. config_law.nonempty (sym own_value ∙ e))
          (ap json.configs.unmarshal own_value ∙ config_law.unmarshals),
      λ j other. get_config_same set_world w j (rw (set_world-value j, other)),
    )

-- ===== src/Service/RateLimit/OnMemory.antt =====
-- The service over the in-memory store of internal/storage/memory.go.
use throttle.Prelude.{suc, String, ◌≡◌, refl, true, arith, eq_refl}
use throttle.Int.{ℤ, pos, ◌+ℤ◌, ◌≤ℤ◌, ◌<ℤ◌, +ℤ_parts}
use throttle.Exec.{ok, err, not_found, returns}
use throttle.Time.{unix}
use throttle.Float64.{Float64}
use throttle.Codec.{IsCodecAt}
use throttle.Memory.{World, world_clock, memory_store, is_expired, set}
use throttle.Memory.Readings.{next_time-set}
use throttle.Memory.Values.{value_at, value_at-set, get_view, next_time}
use throttle.Service.Config.{RateLimitConfig, validate_config}
use throttle.Service.Limiters.{Codecs, config_key, metadata_key}
use throttle.Service.RateLimit.{set_config, get_config}
use throttle.Service.RateLimit.Configs.{metadata-ne-config}

-- A text set with the expiration 0 is gone at every later time.
zero_expires : (t later : ℤ) → pos 0 ≤ℤ t → t <ℤ later → is_expired (t +ℤ pos 0) later ≡ true
zero_expires t later h k = ground (arith, +ℤ_parts t (pos 0))

module _ {F : Type 0} where
  next_reading-set :
      (w : World F) (k v : String) (d : ℤ)
      → (set k v d w).1.clock (suc (set k v d w).1.readings) ≡ w.clock (suc (suc w.readings))
  unfolding set
  next_reading-set w k v d = refl

module _ {F : Type 0} (float : Float64 F) (json : Codecs F) where
  get_config_empty :
      (w : World F) (key : String)
      → value_at w (config_key key) (next_time w) ≡ ""
      → (get_config float (memory_store float) world_clock json key w).0 ≡ returns (err not_found)
  unfolding get_config
  get_config_empty w key gone = rw ((get_view w (config_key key)).0, gone)

  module _ (key : String) (cfg : RateLimitConfig) (w : World F)
      (valid : validate_config cfg ≡ ok tt) (config_law : IsCodecAt json.configs cfg)
      (metadata_law : IsCodecAt json.metadata
        (record { created_at = unix (next_time w); updated_at = unix (next_time w) })) where
    abbrev read_once : World F
    read_once = record w { readings = suc w.readings }

    abbrev set_once : World F
    set_once = (set (config_key key) config_law.text (pos 0) read_once).1

    set_config_lem :
        set_config float (memory_store float) world_clock json key cfg w
        ≡ (returns (ok tt), (set (metadata_key key) metadata_law.text (pos 0) set_once).1)
    unfolding set_config set
    set_config_lem = ground (arith, valid, config_law.marshals, metadata_law.marshals)

    -- Over the in-memory store, for a valid configuration, codecs that round-trip it and its metadata
    -- and a clock past the epoch: `SetConfig` succeeds, and if the clock has moved on by the next
    -- `GetConfig`, the configuration is not found any more.
    pub set_config_expires :
        pos 0 ≤ℤ w.clock (suc w.readings)
        → w.clock (suc w.readings) <ℤ w.clock (suc (suc (suc w.readings)))
        → let after = (set_config float (memory_store float) world_clock json key cfg w).1 in
          ((set_config float (memory_store float) world_clock json key cfg w).0 ≡ returns (ok tt))
          × ((get_config float (memory_store float) world_clock json key after).0
              ≡ returns (err not_found))
    set_config_expires after_epoch moved = rw set_config_lem (refl, get_config_empty _ key gone)
      where
        moved_on :
            is_expired
              (next_time read_once +ℤ pos 0)
              (next_time (set (metadata_key key) metadata_law.text (pos 0) set_once).1)
            ≡ true
        moved_on =
            rw
              (
                next_time-set (metadata_key key) metadata_law.text (pos 0) set_once,
                next_reading-set read_once (config_key key) config_law.text (pos 0),
              )
              (zero_expires (w.clock (suc w.readings)) _ after_epoch moved)

        gone :
            value_at
              (set (metadata_key key) metadata_law.text (pos 0) set_once).1
              (config_key key)
              (next_time (set (metadata_key key) metadata_law.text (pos 0) set_once).1)
            ≡ ""
        gone = rw (
          value_at-set set_once (metadata_key key) (config_key key) metadata_law.text (pos 0)
              (next_time (set (metadata_key key) metadata_law.text (pos 0) set_once).1),
          metadata-ne-config key key,
          value_at-set read_once (config_key key) (config_key key) config_law.text (pos 0)
              (next_time (set (metadata_key key) metadata_law.text (pos 0) set_once).1),
          eq_refl (config_key key),
          moved_on,
        )

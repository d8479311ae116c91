-- ===== src/Service/RateLimit/OwnKeys.antt =====
-- internal/service/ratelimit.go: what the service keeps for one key, with a fixed window, and the calls
-- for other keys.
use throttle.Prelude.{String, ◌≡◌, ◌∙◌, refl, ◌⊎◌, inl, inr, false, arith, ◌==◌, eq_iff, ℕ}
use Prim.Native.String.{◌++◌}
use text.Mathlib.TextLemmas.{append_cancel_left}
use throttle.Int.{ℤ}
use throttle.Time.{Clock}
use throttle.Float64.{Float64}
use throttle.Codec.{IsCodecAt}
use throttle.Storage.{Store}
use throttle.Storage.Expiring.{IsExpiring}
use throttle.Storage.Expiring.Guarded.{IsForeign}
use throttle.Limiter.FixedWindow
use throttle.Limiter.FixedWindow.{FixedWindowState}
use throttle.Limiter.SlidingWindow
use throttle.Limiter.TokenBucket
use throttle.Limiter.LeakyBucket
use throttle.Service.Config.{RateLimitConfig}
use throttle.Service.Limiters.{Codecs, Service, config_key, metadata_key, limiter_key}
use throttle.Service.RateLimit.Checks.{IsFixedWindow, IsConfigured, state-ne-config}
use throttle.Service.RateLimit.Counts.{Counts}
use throttle.Service.RateLimit.Configs.{clash-eq, config_key-eq, metadata-ne-config}
use throttle.Service.RateLimit.Configured.{config-ne-state, metadata-ne-state}
use throttle.Service.RateLimit.Foreign.{HasForeignKeys}
use throttle.Service.RateLimit.Isolation.{Apart}

-- The two keys of the store on which the answers for a key depend.
abbrev pub IsOwn : String → String → Type 0
IsOwn key j = (j ≡ config_key key) ⊎ (j ≡ FixedWindow.state_key key)

state_key-eq :
    (k j : String) → (k == j) ≡ false → (FixedWindow.state_key k == FixedWindow.state_key j) ≡ false
unfolding FixedWindow.state_key
state_key-eq k j differ = ground (
  arith,
  eq_iff ("limiter:fixed_window:" ++ k) ("limiter:fixed_window:" ++ j),
  append_cancel_left "limiter:fixed_window:" k j,
  eq_iff k j,
  differ,
)

module _ {F W : Type 0} (float : Float64 F) (store : Store F W) (clock : Clock W) (json : Codecs F)
    (ex : IsExpiring store clock) (key : String) where
  apart_from :
      (k : String)
      → (k == config_key key) ≡ false
      → (k == FixedWindow.state_key key) ≡ false
      → IsForeign store clock ex (IsOwn key) k
  apart_from k config state j (inl e) = rw e config
  apart_from k config state j (inr e) = rw e state

  -- All that a call for another key writes.
  pub HasForeignKeys-of_ne :
      (other : String)
      → (other == key) ≡ false
      → HasForeignKeys float store clock json ex (IsOwn key) other
  unfolding config_key FixedWindow.state_key SlidingWindow.state_key TokenBucket.state_key
      LeakyBucket.state_key
  HasForeignKeys-of_ne other differ = record {
    config =
        apart_from (config_key other) (config_key-eq other key ∙ differ)
          (config-ne-state other key);
    metadata =
        apart_from (metadata_key other) (metadata-ne-config other key)
          (metadata-ne-state other key);
    fixed_state =
        apart_from (FixedWindow.state_key other) (state-ne-config other key)
          (state_key-eq other key differ);
    sliding_state =
        apart_from (SlidingWindow.state_key other)
          (clash-eq "limiter:sliding_window:" "ratelimit:config:" other key refl)
          (clash-eq "limiter:sliding_window:" "limiter:fixed_window:" other key refl);
    token_state =
        apart_from (TokenBucket.state_key other)
          (clash-eq "limiter:token_bucket:" "ratelimit:config:" other key refl)
          (clash-eq "limiter:token_bucket:" "limiter:fixed_window:" other key refl);
    leaky_state =
        apart_from (LeakyBucket.state_key other)
          (clash-eq "limiter:leaky_bucket:" "ratelimit:config:" other key refl)
          (clash-eq "limiter:leaky_bucket:" "limiter:fixed_window:" other key refl);
  }

  module _ (codec : (state : FixedWindowState) → IsCodecAt json.fixed_states state)
      (cfg : RateLimitConfig) (config_law : IsCodecAt json.configs cfg) (m : ℕ)
      (fw : IsFixedWindow m cfg) (s s' : Service F W)
      (apart : Apart float store clock json ex
        (IsOwn key)
        (limiter_key key cfg.algorithm)
        s
        s') where
    pub Apart-IsConfigured :
        IsConfigured float store clock json ex codec key cfg config_law m fw s
        → IsConfigured float store clock json ex codec key cfg config_law m fw s'
    Apart-IsConfigured set = record {
      configured = λ t. apart.store_same.same (config_key key) t (inl refl) ∙ set.configured t;
      made = rw apart.limiter_same set.made;
      after_epoch = omega (arith, set.after_epoch, apart.store_same.later);
    }

    pub Apart-state :
        (t : ℤ)
        → ex.shown s'.world (FixedWindow.state_key key) t
          ≡ ex.shown s.world (FixedWindow.state_key key) t
    Apart-state t = apart.store_same.same (FixedWindow.state_key key) t (inr refl)

    pub Apart-Counts :
        (c : ℕ) (end : ℤ)
        → Counts float store clock json ex codec key cfg config_law m fw c end s
        → Counts float store clock json ex codec key cfg config_law m fw c end s'
    Apart-Counts c end counts = record {
      set = Apart-IsConfigured counts.set;
      kept = λ t later inside.
          Apart-state t ∙ counts.kept t (omega (arith, later, apart.store_same.later)) inside;
    }

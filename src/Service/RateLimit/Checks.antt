-- ===== src/Service/RateLimit/Checks.antt =====
-- internal/service/ratelimit.go: `CheckLimit` with a fixed window, over a store with expirations.
use throttle.Prelude.{
  ℕ, String, ◌≡◌, refl, Bool, false, arith, ◌==◌, eq_iff, eq_refl, Option, some, none, ◌<◌, inl,
  inr, ◌⊎◌,
}
use throttle.Int.{ℤ, pos, ◌≤ℤ◌, ◌<ℤ◌}
use throttle.Int64.{two_63, mul64, add64}
use throttle.Exec.{ok, returns}
use throttle.Time.{Clock, unix, time_unix, time_sub}
use throttle.Float64.{Float64}
use throttle.Codec.{IsCodecAt}
use throttle.Dict
use throttle.Dict.{Dict}
use throttle.Dict.Laws.{lookup-insert}
use throttle.Storage.{Store}
use throttle.Storage.Expiring.{IsExpiring}
use throttle.Limiter.FixedWindow.{FixedWindow, FixedWindowState, allow, state_key}
use throttle.Limiter.{verdict}
use throttle.Service.Config.{RateLimitConfig, fixed_window}
use throttle.Service.Limiters.{
  calculate_remaining, CheckLimitResponse, Codecs, Limiter, Service, fixed, config_key, limiter_key,
  window_duration, new_limiter, get_or_create_limiter,
}
use throttle.Service.Limiters.Creation.{leak_rate_some, div64_total}
use throttle.Service.RateLimit.{
  at_least_one, as_rate_limiter, get_config, check_limit, respond, calculate_retry_after,
  next_window_start,
}
use throttle.Service.RateLimit.Configs.{clash-eq}
use throttle.Service.RateLimit.Reports.{reset_at_returns}

pub state-ne-config : (k j : String) → (state_key k == config_key j) ≡ false
unfolding state_key config_key
state-ne-config k j = clash-eq "limiter:fixed_window:" "ratelimit:config:" k j refl

-- A configuration of a fixed window with the limit `m`.
pub record IsFixedWindow (m : ℕ) (cfg : RateLimitConfig) : Type 0 where
  pub algorithm : cfg.algorithm ≡ fixed_window
  pub positive : pos 0 <ℤ cfg.window_seconds
  pub limit : cfg.limit ≡ pos m
  pub small : m < two_63

abbrev pub window : RateLimitConfig → FixedWindow
window cfg = record { max_requests = cfg.limit; window_duration = window_duration cfg }

module _ {F W : Type 0} (float : Float64 F) (store : Store F W) (clock : Clock W)
    (json : Codecs F) where
  retry_after_returns :
      (cfg : RateLimitConfig) (w : W)
      → pos 0 <ℤ cfg.window_seconds
      → (retry_after : ℤ) × (calculate_retry_after float store clock json cfg w
          ≡ (returns retry_after, (clock.read (clock.read w).1).1))
  unfolding calculate_retry_after next_window_start
  retry_after_returns cfg w positive =
      let (q, e) = div64_total (unix (clock.read (clock.read w).1).0) cfg.window_seconds positive in
      (
        at_least_one float store clock json (
            float.to_int (
              float.seconds (
                time_sub (time_unix (mul64 (add64 q (pos 1)) cfg.window_seconds))
                  (clock.read w).0))),
        rw e refl,
      )

  -- A response reads the clock three times, and does not panic where the window is not zero.
  respond_run :
      (cfg : RateLimitConfig) (allowed : Bool) (w : W)
      → pos 0 <ℤ cfg.window_seconds
      → (resp : CheckLimitResponse) × (respond float store clock json cfg allowed w
          ≡ (returns resp, (clock.read (clock.read (clock.read w).1).1).1))
        × (resp.allowed ≡ allowed)
  unfolding respond
  respond_run cfg allowed w positive =
      let (reset_at, reset) = reset_at_returns float store clock json cfg w positive in
      let (retry_after, retry) = retry_after_returns cfg (clock.read w).1 positive in
      (
        record {
          allowed = allowed;
          remaining = calculate_remaining cfg allowed;
          reset_at = reset_at;
          retry_after = retry_after;
        },
        rw (reset, retry) refl,
        refl,
      )

  module _ (ex : IsExpiring store clock) where
    get_config_shown :
        (w : W) (key : String) (cfg : RateLimitConfig) (law : IsCodecAt json.configs cfg)
        → ex.shown w (config_key key) (ex.now w) ≡ law.text
        → get_config float store clock json key w
          ≡ (returns (ok cfg), (store.get (config_key key) w).1)
    unfolding get_config
    get_config_shown w key cfg law shown = ground (
      arith,
      ex.get_answer w (config_key key),
      shown,
      law.nonempty,
      law.unmarshals,
      eq_iff law.text "",
    )

    module _ (codec : (state : FixedWindowState) → IsCodecAt json.fixed_states state) (key : String)
        (cfg : RateLimitConfig) (config_law : IsCodecAt json.configs cfg) (m : ℕ)
        (fw : IsFixedWindow m cfg) where
      abbrev pub own_limiter : Service F W → Option (Limiter F)
      own_limiter s = Dict.lookup (limiter_key key cfg.algorithm) s.limiters

      -- The store has the configuration for good, and the service no other limiter for the key.
      pub record IsConfigured (s : Service F W) : Type 0 where
        pub configured : (t : ℤ) → ex.shown s.world (config_key key) t ≡ config_law.text
        pub made : (own_limiter s ≡ none) ⊎ (own_limiter s ≡ some (fixed (window cfg)))
        pub after_epoch : pos 0 ≤ℤ ex.now s.world

      get_or_create_run :
          (s : Service F W)
          → (own_limiter s ≡ none) ⊎ (own_limiter s ≡ some (fixed (window cfg)))
          → (kept : Dict (Limiter F)) × (get_or_create_limiter float
                (limiter_key key cfg.algorithm)
                cfg
                s
              ≡ (returns (ok (fixed (window cfg))), record s { limiters = kept }))
            × (Dict.lookup (limiter_key key cfg.algorithm) kept ≡ some (fixed (window cfg)))
      unfolding get_or_create_limiter new_limiter
      get_or_create_run s (inl missing) =
          let (rate, e) = leak_rate_some cfg fw.positive in
          let lk = limiter_key key cfg.algorithm in
          (
            Dict.insert lk (fixed (window cfg)) s.limiters,
            rw (missing, e, fw.algorithm) refl,
            rw (lookup-insert lk lk (fixed (window cfg)) s.limiters, eq_refl lk),
          )
      get_or_create_run s (inr found) = (s.limiters, rw found refl, found)

      -- A check whose request to the limiter is answered.
      pub check_run :
          (s : Service F W) (allowed : Bool) (written : W)
          → IsConfigured s
          → allow store clock json.fixed_states
              (window cfg)
              key
              (store.get (config_key key) s.world).1
            ≡ (returns (verdict allowed), written)
          → (resp : CheckLimitResponse) × (after : Service F W) × (check_limit float store clock
                json key s
              ≡ (returns (ok resp), after))
            × (resp.allowed ≡ allowed)
            × (after.world ≡ (clock.read (clock.read (clock.read written).1).1).1)
            × (own_limiter after ≡ some (fixed (window cfg)))
      unfolding check_limit as_rate_limiter
      check_run s allowed written set decided =
          let found =
            get_config_shown s.world key cfg config_law (set.configured (ex.now s.world)) in
          let (kept, made, own) =
            get_or_create_run (record s { world = (store.get (config_key key) s.world).1 })
              set.made in
          let (resp, responds, same) = respond_run cfg allowed written fw.positive in
          let after_responding = (clock.read (clock.read (clock.read written).1).1).1 in
          (
            resp,
            record { limiters = kept; world = after_responding },
            rw (found, made, decided, responds) refl,
            same,
            refl,
            own,
          )

-- ===== src/Service/Config/Validity.antt =====
-- What `ValidateConfig` accepts.
use throttle.Prelude.{◌≡◌, ◌⊎◌, inl, inr, ◌↔◌, arith, eq_iff}
use throttle.Int.{pos, ◌<ℤ◌}
use throttle.Exec.{ok}
use throttle.Service.Config.{
  RateLimitConfig, validate_config, token_bucket, sliding_window, fixed_window, leaky_bucket,
}

-- A configuration that makes sense: a known algorithm, and every number that it uses positive.
pub record IsValid (cfg : RateLimitConfig) : Type 0 where
  pub known :
      (cfg.algorithm ≡ token_bucket)
      ⊎ (cfg.algorithm ≡ sliding_window)
      ⊎ (cfg.algorithm ≡ fixed_window)
      ⊎ (cfg.algorithm ≡ leaky_bucket)
  pub limit_pos : pos 0 <ℤ cfg.limit
  pub window_pos : pos 0 <ℤ cfg.window_seconds
  pub refill_pos :
      cfg.algorithm ≡ token_bucket → (pos 0 <ℤ cfg.refill_rate) × (pos 0 <ℤ cfg.refill_interval)

-- A configuration is accepted exactly if it makes sense.
pub validate_config_iff : (cfg : RateLimitConfig) → (validate_config cfg ≡ ok tt) ↔ IsValid cfg
unfolding validate_config
validate_config_iff cfg = (to, from)
  where
    to : validate_config cfg ≡ ok tt → IsValid cfg
    to h = record {
      known = ground (
        arith,
        eq_iff cfg.algorithm token_bucket,
        eq_iff cfg.algorithm sliding_window,
        eq_iff cfg.algorithm fixed_window,
        eq_iff cfg.algorithm leaky_bucket,
      );
      limit_pos = ground arith;
      window_pos = ground arith;
      refill_pos = λ e. ground (arith, e, eq_iff cfg.algorithm token_bucket);
    }

    from : IsValid cfg → validate_config cfg ≡ ok tt
    from v = elim v.known [
      | inl e ↦ let positive = v.refill_pos e in rw e (ground arith)
      | inr (inl e) ↦ rw e (ground arith)
      | inr (inr (inl e)) ↦ rw e (ground arith)
      | inr (inr (inr e)) ↦ rw e (ground arith)
    ]

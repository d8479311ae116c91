-- ===== src/Service/Limiters/Creation.antt =====
-- What `GetOrCreateLimiter` returns and keeps.
use throttle.Prelude.{
  String, ◌≡◌, refl, inl, inr, some, arith, eq_refl, if◌then◌else◌, Option-cases,
}
use throttle.Int.{ℤ, pos, ◌<ℤ◌}
use throttle.Int64.{quot, wrap64, div64, is_zero}
use throttle.Exec.{ok, returns}
use throttle.Float64.{Float64}
use throttle.Dict
use throttle.Dict.Laws.{lookup-insert}
use throttle.Service.Config.{RateLimitConfig}
use throttle.Service.Config.Validity.{IsValid}
use throttle.Service.Limiters.{
  Limiter, Service, leak_rate, new_limiter, new_token_bucket, new_sliding_window, new_fixed_window,
  new_leaky_bucket, get_or_create_limiter,
}

pub div64_total : (a b : ℤ) → pos 0 <ℤ b → (q : ℤ) × (div64 a b ≡ some q)
unfolding div64
div64_total a b h = (wrap64 (quot a b), ground arith)

pub leak_rate_some :
    (cfg : RateLimitConfig) → pos 0 <ℤ cfg.window_seconds → (rate : ℤ) × (leak_rate cfg ≡ some rate)
leak_rate_some cfg positive =
    let (rate, e) = div64_total cfg.limit cfg.window_seconds positive in
    (if is_zero rate then pos 1 else rate, rw (e, leak_rate))

leak_rate_total : (cfg : RateLimitConfig) → IsValid cfg → (rate : ℤ) × (leak_rate cfg ≡ some rate)
leak_rate_total cfg v = leak_rate_some cfg v.window_pos

module _ {F : Type 0} (float : Float64 F) where
  new_limiter_total :
      (cfg : RateLimitConfig) (rate : ℤ)
      → IsValid cfg
      → (lim : Limiter F) × (new_limiter float cfg rate ≡ ok lim)
  unfolding new_limiter
  new_limiter_total cfg rate v = elim v.known [
    | inl e ↦ (new_token_bucket float cfg, rw e)
    | inr (inl e) ↦ (new_sliding_window cfg, rw e)
    | inr (inr (inl e)) ↦ (new_fixed_window cfg, rw e)
    | inr (inr (inr e)) ↦ (new_leaky_bucket cfg rate, rw e)
  ]

module _ {F W : Type 0} (float : Float64 F) where
  kept :
      (key : String) (cfg : RateLimitConfig) (lim : Limiter F) (s s' : Service F W)
      → get_or_create_limiter float key cfg s ≡ (returns (ok lim), s')
      → Dict.lookup key s'.limiters ≡ some lim
  unfolding get_or_create_limiter
  kept key cfg lim s s' h = ground (arith, lookup-insert key key lim s.limiters, eq_refl key)

  -- A limiter that was made once is returned for its key whatever configuration comes later: a new
  -- limit for the same key and algorithm has no effect, and neither has deleting the old one.
  pub get_or_create_limiter_stale :
      (key : String) (cfg later : RateLimitConfig) (lim : Limiter F) (s s' : Service F W)
      → get_or_create_limiter float key cfg s ≡ (returns (ok lim), s')
      → get_or_create_limiter float key later s' ≡ (returns (ok lim), s')
  unfolding get_or_create_limiter
  get_or_create_limiter_stale key cfg later lim s s' h =
      rw (kept key cfg lim s s' h, get_or_create_limiter)

  -- For a valid configuration a limiter is returned: the call neither fails nor panics.
  pub get_or_create_limiter_total :
      (key : String) (cfg : RateLimitConfig) (s : Service F W)
      → IsValid cfg
      → (lim : Limiter F) × (s' : Service F W) × (get_or_create_limiter float key cfg s
          ≡ (returns (ok lim), s'))
        × (s'.world ≡ s.world)
  unfolding get_or_create_limiter
  get_or_create_limiter_total key cfg s v = elim (Option-cases (Dict.lookup key s.limiters)) [
    | inl missing ↦
        let (rate, e) = leak_rate_total cfg v in
        let (lim, e') = new_limiter_total float cfg rate v in
        (
          lim,
          record s { limiters = Dict.insert key lim s.limiters },
          ground (arith, missing, e, e'),
          refl,
        )
    | inr (lim, found) ↦ (lim, s, rw (found, get_or_create_limiter), refl)
  ]

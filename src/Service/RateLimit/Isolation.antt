-- ===== src/Service/RateLimit/Isolation.antt =====
-- internal/service/ratelimit.go: calls for one key, as the other keys meet them.
use throttle.Prelude.{String, ◌≡◌, refl, false, ◌==◌, inl, inr}
use throttle.Exec.{Exec, pure, or_return, ◌>>=◌, Result, ok, err, Result-cases, Outcome-cases}
use throttle.Time.{Clock}
use throttle.Float64.{Float64}
use throttle.Storage.{Store}
use throttle.Storage.Expiring.{IsExpiring}
use throttle.Storage.Expiring.Guarded.{Untouched-trans}
use throttle.Dict
use throttle.Dict.{Dict}
use throttle.Service.Config.{RateLimitConfig}
use throttle.Service.Limiters.{
  get_or_create_limiter, CheckLimitResponse, in_world, Codecs, Limiter, Service, limiter_key,
  config_key, metadata_key,
}
use throttle.Service.Limiters.Others.{IsKnown, get_or_create_limiter_others}
use throttle.Service.RateLimit.{
  get_config, as_rate_limiter, allowed_or_open, respond, check_limit, reset_limit,
}
use throttle.Service.RateLimit.Foreign.{
  HasForeignKeys, Leaves, allow-Leaves, reset-Leaves, respond-Leaves, get_config_result, same, gets,
  deletes,
}

module _ {F W : Type 0} (float : Float64 F) (store : Store F W) (clock : Clock W) (json : Codecs F)
    (ex : IsExpiring store clock) (IsGuarded : String → Type 0) (own : String) where
  -- The guarded keys of the store and one limiter of the service are as they were.
  pub record Apart (s s' : Service F W) : Type 0 where
    pub store_same : Leaves float store clock json ex IsGuarded s.world s'.world
    pub limiter_same : Dict.lookup own s'.limiters ≡ Dict.lookup own s.limiters

  module _ (key : String) (s : Service F W)
      (keys : HasForeignKeys float store clock json ex IsGuarded key)
      (apart : (algorithm : String)
        → IsKnown algorithm
        → (limiter_key key algorithm == own) ≡ false) where
    abbrev looked : W
    looked = (store.get (config_key key) s.world).1

    abbrev get_kept : Leaves float store clock json ex IsGuarded s.world looked
    get_kept =
        gets float store clock json ex IsGuarded s.world (config_key key) s.world
          (same float store clock json ex IsGuarded s.world)

    abbrev apart_at :
        (kept : Dict (Limiter F)) (w : W)
        → Dict.lookup own kept ≡ Dict.lookup own s.limiters
        → Leaves float store clock json ex IsGuarded s.world w
        → Apart s (record { limiters = kept; world = w })
    apart_at kept w limiter left = record { store_same = left; limiter_same = limiter }

    -- Up to the limiter, as `CheckLimit` and `ResetLimit` begin.
    limiter-Apart :
        {A : Type 0} (f : RateLimitConfig → Limiter F → Exec (Service F W) (Result A))
        → ((cfg : RateLimitConfig) (lim : Limiter F) (kept : Dict (Limiter F))
            → Dict.lookup own kept ≡ Dict.lookup own s.limiters
            → Apart s (f cfg lim (record { limiters = kept; world = looked })).1)
        → Apart s
            ((in_world (get_config float store clock json key)
                >>= or_return
                    (λ e. pure (err e))
                    (λ cfg.
                      get_or_create_limiter float (limiter_key key cfg.algorithm) cfg
                      >>= or_return (λ e. pure (err e)) (f cfg)))
              s).1
    limiter-Apart f keeps =
        let (found, run) = get_config_result float store clock json ex IsGuarded key s.world in
        elim (Result-cases found) [
          | inl (e, fails) ↦ rw (run, fails) (apart_at s.limiters looked refl get_kept)
          | inr (cfg, parsed) ↦
              let lk = limiter_key key cfg.algorithm in
              let (o, kept, made, own_same) =
                get_or_create_limiter_others float own lk cfg (record s { world = looked })
                  (apart cfg.algorithm) in
              elim (Outcome-cases o) [
                | inl panicked ↦
                    rw (run, parsed, made, panicked) (apart_at kept looked own_same get_kept)
                | inr (r, returned) ↦ elim (Result-cases r) [
                  | inl (e, fails) ↦
                      rw (run, parsed, made, returned, fails)
                        (apart_at kept looked own_same get_kept)
                  | inr (lim, is_made) ↦
                      rw (run, parsed, made, returned, is_made) (keeps cfg lim kept own_same)
                ]
              ]
        ]

    -- From the limiter on.
    limited-Apart :
        (lim : Limiter F) (cfg : RateLimitConfig) (kept : Dict (Limiter F))
        → Dict.lookup own kept ≡ Dict.lookup own s.limiters
        → Apart s
            ((in_world ((as_rate_limiter float store clock json lim).allow key) >>= λ v.
                in_world
                  (respond float store clock json cfg (allowed_or_open float store clock json v))
                >>= λ response. pure {A = Result CheckLimitResponse} (ok response))
              (record { limiters = kept; world = looked })).1
    limited-Apart lim cfg kept own_same =
        let answer = (as_rate_limiter float store clock json lim).allow key looked in
        let left =
          Untouched-trans store clock ex IsGuarded s.world looked answer.1 get_kept
            (allow-Leaves float store clock json ex IsGuarded lim key looked keys) in
        elim (Outcome-cases answer.0) [
          | inl panicked ↦ rw panicked (apart_at kept answer.1 own_same left)
          | inr (v, answered) ↦
              let allowed = allowed_or_open float store clock json v in
              let response = respond float store clock json cfg allowed answer.1 in
              let left_after =
                respond-Leaves float store clock json ex IsGuarded s.world cfg allowed answer.1
                  left in
              elim (Outcome-cases response.0) [
                | inl panicked ↦
                    rw (answered, panicked) (apart_at kept response.1 own_same left_after)
                | inr (resp, responded) ↦
                    rw (answered, responded) (apart_at kept response.1 own_same left_after)
              ]
        ]

    pub check_limit-Apart : Apart s (check_limit float store clock json key s).1
    unfolding check_limit
    check_limit-Apart =
        limiter-Apart _ (λ cfg lim kept own_same. limited-Apart lim cfg kept own_same)

    -- From the limiter on, the two deletions with it.
    cleared-Apart :
        (lim : Limiter F) (kept : Dict (Limiter F))
        → Dict.lookup own kept ≡ Dict.lookup own s.limiters
        → Apart s
            ((in_world ((as_rate_limiter float store clock json lim).reset key) >>= λ cleared.
                or_return
                  (λ e. pure (err e))
                  (λ _. in_world (store.delete (config_key key)) >>= λ _.
                    in_world (store.delete (metadata_key key)) >>= λ _. pure (ok (tt {0})))
                  cleared)
              (record { limiters = kept; world = looked })).1
    cleared-Apart lim kept own_same =
        let cleared = (as_rate_limiter float store clock json lim).reset key looked in
        let (answered, left) =
          reset-Leaves float store clock json ex IsGuarded lim key looked keys in
        let all_left =
          Untouched-trans store clock ex IsGuarded s.world looked cleared.1 get_kept left in
        let once = (store.delete (config_key key) cleared.1).1 in
        rw (answered, ex.delete_answer, ex.delete_answer)
          (apart_at kept (store.delete (metadata_key key) once).1 own_same (
            deletes float store clock json ex IsGuarded s.world (metadata_key key) once
              keys.metadata
              (deletes float store clock json ex IsGuarded s.world (config_key key) cleared.1
                keys.config all_left)))

    pub reset_limit-Apart : Apart s (reset_limit float store clock json key s).1
    unfolding reset_limit
    reset_limit-Apart = limiter-Apart _ (λ cfg lim kept own_same. cleared-Apart lim kept own_same)

-- ===== src/Handler/RateLimit/Served.antt =====
-- internal/handler/ratelimit.go: a configuration that is set, and the requests that follow, over a store
-- with expirations.
use throttle.Prelude.{
  ℕ, List, String, ◌≡◌, refl, ap, ◌∙◌, some, none, [], ◌∷◌, arith, inl, ◌==◌, false,
}
use throttle.Int.{ℤ, pos, ◌+ℤ◌, ◌≤ℤ◌}
use throttle.Int64.{IsInt64}
use throttle.Exec.{Outcome, returns, ok}
use throttle.Time.{Clock, unix, second}
use throttle.Float64.{Float64}
use throttle.Codec.{IsCodecAt}
use throttle.Storage.{Store}
use throttle.Storage.Expiring.{IsExpiring}
use throttle.Limiter.FixedWindow.{FixedWindowState, state_key}
use throttle.Service.Config.{RateLimitConfig, validate_config}
use throttle.Service.Limiters.{Codecs, Service, limiter_key, window_duration}
use throttle.Service.RateLimit.Checks.{IsFixedWindow}
use throttle.Dict
use throttle.Service.RateLimit.Configured.{
  configured, configured_later, configured_shown, configured_states, set_config_run,
}
use throttle.Handler.RateLimit.Requests.{Call, own_checks, AreOthers}
use throttle.Handler.{Response, json_content}
use throttle.Handler.RateLimit.{Body, done, set}
use throttle.Handler.RateLimit.Answers.{
  set_request, status_code, promised, statuses, AnsweredBefore,
}
use throttle.Handler.RateLimit.Enforced.{Configured, statuses_fresh}

module _ {F W : Type 0} (float : Float64 F) (store : Store F W) (clock : Clock W) (json : Codecs F)
    (key : String) (ex : IsExpiring store clock)
    (codec : (state : FixedWindowState) → IsCodecAt json.fixed_states state) (cfg : RateLimitConfig)
    (config_law : IsCodecAt json.configs cfg) (m : ℕ) (fw : IsFixedWindow m cfg)
    (named : (key == "") ≡ false) where
  module _ (s : Service F W) (valid : validate_config cfg ≡ ok tt)
      (metadata_law : IsCodecAt json.metadata (record {
        created_at = unix (clock.read s.world).0;
        updated_at = unix (clock.read s.world).0;
      })) where
    set_request_run : set_request float store clock json key cfg s ≡ (
      returns (record {
        status = 201;
        headers = json_content ∷ [];
        body = done "rate limit configured" key;
      }),
      record s {
        world = configured float store clock json ex key cfg s.world valid config_law metadata_law;
      },
    )
    unfolding set
    set_request_run =
        rw (set_config_run float store clock json ex key cfg s.world valid config_law metadata_law)
          refl

    -- After a valid configuration of a fixed window with the limit `m` was set for a key without a
    -- state, the checks of the key that are answered within one window's length of that are answered
    -- as the quota promises, whatever is asked of the handlers for other keys, or of the status of
    -- any, in between.
    pub statuses-set :
        (calls : List Call)
        → pos 0 ≤ℤ ex.now s.world
        → ((t : ℤ) → ex.shown s.world (state_key key) t ≡ "")
        → Dict.lookup (limiter_key key cfg.algorithm) s.limiters ≡ none
        → IsInt64 (
            ex.now (set_request float store clock json key cfg s).1.world
            +ℤ window_duration cfg
            +ℤ window_duration cfg
            +ℤ second)
        → AreOthers key calls
        → AnsweredBefore float store clock json key ex
            (ex.now (set_request float store clock json key cfg s).1.world +ℤ window_duration cfg)
            calls
            (set_request float store clock json key cfg s).1
        → (status_code (set_request float store clock json key cfg s).0 ≡ some 201)
          × (statuses float store clock json key calls
                (set_request float store clock json key cfg s).1
              ≡ promised m (own_checks calls))
    statuses-set calls after_epoch unset unused fits others soon =
        let moved = ap (λ (r : Outcome (Response Body) × Service F W). r.1) set_request_run in
        let set_world =
          configured float store clock json ex key cfg s.world valid config_law metadata_law in
        let later =
          configured_later float store clock json ex key cfg s.world valid config_law
            metadata_law in
        let unset_yet =
          configured_states float store clock json ex key cfg s.world valid config_law metadata_law
            key in
        let is_set : Configured float store clock json key ex codec cfg config_law m fw named
            (record s { world = set_world }) =
          record {
            configured =
                configured_shown float store clock json ex key cfg s.world valid config_law
                  metadata_law;
            made = inl unused;
            after_epoch = omega (arith, after_epoch, later);
          } in
        (
          rw set_request_run refl,
          rw moved (
              statuses_fresh float store clock json key ex codec cfg config_law m fw named
                (ex.now set_world +ℤ window_duration cfg) calls (record s { world = set_world })
                is_set (λ t. unset_yet t ∙ unset t) (omega arith) (rw moved at fits) others
                (rw moved at soon)),
        )

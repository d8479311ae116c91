-- ===== src/Service/RateLimit/Foreign.antt =====
-- internal/service/ratelimit.go: what a call for one key leaves alone of the others, over a store with
-- expirations.
use throttle.Prelude.{String, ◌≡◌, refl, Bool, ◌==◌, inl, inr, Option-cases, Bool-cases}
use throttle.Exec.{
  wrapped, not_found, Result, ok, err, Outcome, returns, panics, Result-cases, Outcome-cases,
}
use throttle.Time.{Clock, unix}
use throttle.Int64.{div64, mul64, add64}
use throttle.Int.{ℤ, pos}
use throttle.Float64.{Float64}
use throttle.Storage.{Store}
use throttle.Storage.Expiring.{IsExpiring}
use throttle.Storage.Expiring.Guarded.{
  Untouched, Untouched-refl, IsForeign, read-Untouched, get-Untouched, set-Untouched,
  delete-Untouched,
}
use throttle.Limiter.Foreign.{
  sliding_window-Leaves, fixed_window-Leaves, leaky_bucket-Leaves, token_bucket-Leaves,
}
use throttle.Limiter.FixedWindow
use throttle.Limiter.SlidingWindow
use throttle.Limiter.TokenBucket
use throttle.Limiter.LeakyBucket
use throttle.Service.Config.{RateLimitConfig, validate_config}
use throttle.Service.Limiters.{
  RateLimitMetadata, Codecs, Limiter, token, sliding, fixed, leaky, config_key, metadata_key,
}
use throttle.Service.RateLimit.{
  get_config, as_rate_limiter, respond, calculate_reset_at, calculate_retry_after,
  next_window_start, set_config, get_status, parse_metadata,
}

module _ {F W : Type 0} (float : Float64 F) (store : Store F W) (clock : Clock W) (json : Codecs F)
    (ex : IsExpiring store clock) (IsGuarded : String → Type 0) where
  -- No key of the store that a call for this key writes is guarded.
  pub record HasForeignKeys (key : String) : Type 0 where
    pub config : IsForeign store clock ex IsGuarded (config_key key)
    pub metadata : IsForeign store clock ex IsGuarded (metadata_key key)
    pub fixed_state : IsForeign store clock ex IsGuarded (FixedWindow.state_key key)
    pub sliding_state : IsForeign store clock ex IsGuarded (SlidingWindow.state_key key)
    pub token_state : IsForeign store clock ex IsGuarded (TokenBucket.state_key key)
    pub leaky_state : IsForeign store clock ex IsGuarded (LeakyBucket.state_key key)

  abbrev pub Leaves : W → W → Type 0
  Leaves = Untouched store clock ex IsGuarded

  pub allow-Leaves :
      (lim : Limiter F) (key : String) (w : W)
      → HasForeignKeys key
      → Leaves w ((as_rate_limiter float store clock json lim).allow key w).1
  unfolding as_rate_limiter
  allow-Leaves (token tb) key w keys =
      token_bucket-Leaves store clock ex IsGuarded w float json.token_states tb key keys.token_state
  allow-Leaves (sliding sw) key w keys =
      sliding_window-Leaves store clock ex IsGuarded w json.sliding_states sw key keys.sliding_state
  allow-Leaves (fixed fw) key w keys =
      fixed_window-Leaves store clock ex IsGuarded w json.fixed_states fw key keys.fixed_state
  allow-Leaves (leaky lb) key w keys =
      leaky_bucket-Leaves store clock ex IsGuarded w json.leaky_states lb key keys.leaky_state

  module _ (w : W) where
    abbrev pub same : Leaves w w
    same = Untouched-refl store clock ex IsGuarded w

    abbrev pub gets : (k : String) (w' : W) → Leaves w w' → Leaves w (store.get k w').1
    gets k w' u = get-Untouched store clock ex IsGuarded w w' u k

    abbrev pub sets :
        (k v : String) (d : ℤ) (w' : W)
        → IsForeign store clock ex IsGuarded k
        → Leaves w w'
        → Leaves w (store.set k v d w').1
    sets k v d w' foreign u = set-Untouched store clock ex IsGuarded w w' u k v d foreign

    abbrev pub deletes :
        (k : String) (w' : W)
        → IsForeign store clock ex IsGuarded k
        → Leaves w w'
        → Leaves w (store.delete k w').1
    deletes k w' foreign u = delete-Untouched store clock ex IsGuarded w w' u k foreign

    abbrev pub reads : (w' : W) → Leaves w w' → Leaves w (clock.read w').1
    reads w' u = read-Untouched store clock ex IsGuarded w w' u

    pub respond-Leaves :
        (cfg : RateLimitConfig) (allowed : Bool) (w' : W)
        → Leaves w w'
        → Leaves w (respond float store clock json cfg allowed w').1
    unfolding respond calculate_reset_at calculate_retry_after next_window_start
    respond-Leaves cfg allowed w' kept =
        let once = reads w' kept in
        let again = reads (clock.read (clock.read w').1).1 (reads (clock.read w').1 once) in
        elim (Option-cases (div64 (unix (clock.read w').0) cfg.window_seconds)) [
          | inl stuck ↦ rw stuck once
          | inr (q, divides) ↦
              elim (Option-cases
                (div64 (unix (clock.read (clock.read (clock.read w').1).1).0) cfg.window_seconds)) [
                  | inl stuck ↦ rw (divides, stuck) again
                  | inr (q', divides') ↦ rw (divides, divides') again
                ]
        ]

  pub get_config_result :
      (key : String) (w : W)
      → (r : Result RateLimitConfig) × (get_config float store clock json key w
          ≡ (returns r, (store.get (config_key key) w).1))
  unfolding get_config
  get_config_result key w =
      let text = ex.shown w (config_key key) (ex.now w) in
      elim (Bool-cases (text == "")) [
        | inl empty ↦ (err not_found, rw (ex.get_answer, empty) refl)
        | inr there ↦ elim (Result-cases (json.configs.unmarshal text)) [
          | inl (e, fails) ↦ (
            err (wrapped "failed to parse configuration" e),
            rw (ex.get_answer, there, fails) refl,
          )
          | inr (cfg, parses) ↦ (ok cfg, rw (ex.get_answer, there, parses) refl)
        ]
      ]

  pub reset-Leaves :
      (lim : Limiter F) (key : String) (w : W)
      → HasForeignKeys key
      → ((as_rate_limiter float store clock json lim).reset key w).0 ≡ returns (ok tt)
        × Leaves w ((as_rate_limiter float store clock json lim).reset key w).1
  unfolding as_rate_limiter FixedWindow.reset SlidingWindow.reset TokenBucket.reset
      LeakyBucket.reset
  reset-Leaves (token lim) key w keys = (
    rw ex.delete_answer refl,
    rw ex.delete_answer (deletes w (TokenBucket.state_key key) w keys.token_state (same w)),
  )
  reset-Leaves (sliding lim) key w keys = (
    rw ex.delete_answer refl,
    rw ex.delete_answer (deletes w (SlidingWindow.state_key key) w keys.sliding_state (same w)),
  )
  reset-Leaves (fixed lim) key w keys = (
    rw ex.delete_answer refl,
    rw ex.delete_answer (deletes w (FixedWindow.state_key key) w keys.fixed_state (same w)),
  )
  reset-Leaves (leaky lim) key w keys = (
    rw ex.delete_answer refl,
    rw ex.delete_answer (deletes w (LeakyBucket.state_key key) w keys.leaky_state (same w)),
  )

  pub set_config-Leaves :
      (key : String) (cfg : RateLimitConfig) (w : W)
      → HasForeignKeys key
      → Leaves w (set_config float store clock json key cfg w).1
  unfolding set_config
  set_config-Leaves key cfg w keys =
      let now = unix (clock.read w).0 in
      let begun = reads w w (same w) in
      elim (Result-cases (validate_config cfg)) [
        | inl (e, refused) ↦ rw refused (same w)
        | inr (x, valid) ↦ elim (Result-cases (json.configs.marshal cfg)) [
          | inl (e, fails) ↦ rw (valid, fails) (same w)
          | inr (text, marshals) ↦
              elim (Result-cases
                (json.metadata.marshal (record { created_at = now; updated_at = now }))) [
                  | inl (e, fails) ↦ rw (valid, marshals, fails) begun
                  | inr (metadata, marshals') ↦
                      rw (valid, marshals, marshals', ex.set_answer)
                        (sets w (metadata_key key) metadata (pos 0)
                          (store.set (config_key key) text (pos 0) (clock.read w).1).1 keys.metadata
                          (sets w (config_key key) text (pos 0) (clock.read w).1 keys.config begun))
                ]
        ]
      ]

  parse_metadata_result :
      (key : String) (w : W)
      → (r : Result RateLimitMetadata) × (parse_metadata float store clock json key w
          ≡ (returns r, (store.get (metadata_key key) w).1))
  unfolding parse_metadata
  parse_metadata_result key w =
      let text = ex.shown w (metadata_key key) (ex.now w) in
      elim (Bool-cases (text == "")) [
        | inl empty ↦ (err not_found, rw (ex.get_answer, empty) refl)
        | inr there ↦ elim (Result-cases (json.metadata.unmarshal text)) [
          | inl (e, fails) ↦
              (err (wrapped "failed to parse metadata" e), rw (ex.get_answer, there, fails) refl)
          | inr (m, parses) ↦ (ok m, rw (ex.get_answer, there, parses) refl)
        ]
      ]

  reset_at-Leaves :
      (cfg : RateLimitConfig) (w : W)
      → (o : Outcome ℤ) × (calculate_reset_at float store clock json cfg w ≡ (o, (clock.read w).1))
  unfolding calculate_reset_at next_window_start
  reset_at-Leaves cfg w = elim (Option-cases (div64 (unix (clock.read w).0) cfg.window_seconds)) [
    | inl stuck ↦ (panics, rw stuck refl)
    | inr (q, divides) ↦ (returns (mul64 (add64 q (pos 1)) cfg.window_seconds), rw divides refl)
  ]

  pub get_status-Leaves :
      (key : String) (w : W) → Leaves w (get_status float store clock json key w).1
  unfolding get_status
  get_status-Leaves key w =
      let (found, run) = get_config_result key w in
      let looked = (store.get (config_key key) w).1 in
      let kept = gets w (config_key key) w (same w) in
      let (metadata, read) = parse_metadata_result key looked in
      let looked' = (store.get (metadata_key key) looked).1 in
      let kept' = gets w (metadata_key key) looked kept in
      elim (Result-cases found) [
        | inl (e, fails) ↦ rw (run, fails) kept
        | inr (cfg, parsed) ↦ elim (Result-cases metadata) [
          | inl (e, fails) ↦
              let (o, next) = reset_at-Leaves cfg (clock.read looked').1 in
              let kept'' = reads w (clock.read looked').1 (reads w looked' kept') in
              elim (Outcome-cases o) [
                | inl panicked ↦ rw (run, parsed, read, fails, next, panicked) kept''
                | inr (t, is) ↦ rw (run, parsed, read, fails, next, is) kept''
              ]
          | inr (m, is_read) ↦
              let (o, next) = reset_at-Leaves cfg looked' in
              elim (Outcome-cases o) [
                | inl panicked ↦
                    rw (run, parsed, read, is_read, next, panicked) (reads w looked' kept')
                | inr (t, is) ↦ rw (run, parsed, read, is_read, next, is) (reads w looked' kept')
              ]
        ]
      ]

-- ===== src/Limiter/Foreign.antt =====
-- What `Allow` of the four limiters leaves alone, over a store with expirations.
use throttle.Prelude.{Option, some, none, String, ◌≡◌, refl, Bool, ◌==◌, Bool-cases, inl, inr}
use throttle.Exec.{Exec, panic, ok, returns, Result-cases}
use throttle.Time.{Clock, time_sub, unix_nano, second}
use throttle.Int64.{add64}
use throttle.Int.{ℤ}
use throttle.Codec.{Codec}
use throttle.Float64.{Float64}
use throttle.Storage.{Store}
use throttle.Storage.Expiring.{IsExpiring}
use throttle.Storage.Expiring.Guarded.{
  Untouched, Untouched-refl, IsForeign, read-Untouched, get-Untouched, set-Untouched,
}
use throttle.Limiter.{Verdict}
use throttle.Limiter.FixedWindow
use throttle.Limiter.FixedWindow.{FixedWindow, FixedWindowState, admit, expiration_after}
use throttle.Limiter.LeakyBucket
use throttle.Limiter.LeakyBucket.{LeakyBucket, LeakyBucketState, save}
use throttle.Limiter.TokenBucket
use throttle.Limiter.TokenBucket.{
  TokenBucket, TokenBucketState, consume, refill, get_bucket_state, set_bucket_state,
}
use throttle.Limiter.SlidingWindow
use throttle.Limiter.SlidingWindow.{SlidingWindow, SlidingWindowState}

module _ {F W : Type 0} (store : Store F W) (clock : Clock W) (ex : IsExpiring store clock)
    (IsGuarded : String → Type 0) (w : W) where
  abbrev Leaves : W → Type 0
  Leaves = Untouched store clock ex IsGuarded w

  abbrev same : Leaves w
  same = Untouched-refl store clock ex IsGuarded w

  abbrev reads : (w' : W) → Leaves w' → Leaves (clock.read w').1
  reads w' u = read-Untouched store clock ex IsGuarded w w' u

  abbrev gets : (k : String) (w' : W) → Leaves w' → Leaves (store.get k w').1
  gets k w' u = get-Untouched store clock ex IsGuarded w w' u k

  abbrev sets :
      (k v : String) (d : ℤ) (w' : W)
      → IsForeign store clock ex IsGuarded k
      → Leaves w'
      → Leaves (store.set k v d w').1
  sets k v d w' foreign u = set-Untouched store clock ex IsGuarded w w' u k v d foreign

  module _ (json : Codec SlidingWindowState) (sw : SlidingWindow) (key : String) where
    abbrev sliding_key : String
    sliding_key = SlidingWindow.state_key key

    pub sliding_window-Leaves :
        IsForeign store clock ex IsGuarded sliding_key
        → Leaves (SlidingWindow.allow store clock json sw key w).1
    unfolding SlidingWindow.allow
    sliding_window-Leaves foreign =
        let begun = (clock.read w).1 in
        let text = ex.shown begun sliding_key (ex.now begun) in
        let state =
          (SlidingWindow.step sw (unix_nano (clock.read w).0) (SlidingWindow.load json text)).1 in
        elim (Result-cases (json.marshal (record { timestamps = state }))) [
          | inl (e, fails) ↦ rw (ex.get_answer, fails) (gets sliding_key begun (reads w same))
          | inr (v, marshals) ↦
              rw (ex.get_answer, marshals, ex.set_answer)
                (sets sliding_key v (add64 sw.window_duration second)
                  (store.get sliding_key begun).1 foreign (gets sliding_key begun (reads w same)))
        ]

  module _ (json : Codec FixedWindowState) (fw : FixedWindow) (key : String) where
    abbrev fixed_key : String
    fixed_key = FixedWindow.state_key key

    pub fixed_window-Leaves :
        IsForeign store clock ex IsGuarded fixed_key
        → Leaves (FixedWindow.allow store clock json fw key w).1
    unfolding FixedWindow.allow
    fixed_window-Leaves foreign =
        let begun = (clock.read w).1 in
        let looked = (store.get fixed_key begun).1 in
        let text = ex.shown begun fixed_key (ex.now begun) in
        let decision = admit fw (FixedWindow.load json fw (unix_nano (clock.read w).0) text) in
        let kept = gets fixed_key begun (reads w same) in
        elim (Result-cases (json.marshal decision.1)) [
          | inl (e, fails) ↦ rw (ex.get_answer, fails) kept
          | inr (v, marshals) ↦
              rw (ex.get_answer, marshals, ex.set_answer)
                (sets fixed_key v
                  (expiration_after fw (time_sub decision.1.window_end (clock.read looked).0))
                  (clock.read looked).1 foreign (reads looked kept))
        ]

  module _ (json : Codec LeakyBucketState) (lb : LeakyBucket) (key : String) where
    abbrev leaky_key : String
    leaky_key = LeakyBucket.state_key key

    save-Leaves :
        (next : Bool × LeakyBucketState) (w' : W)
        → IsForeign store clock ex IsGuarded leaky_key
        → Leaves w'
        → Leaves (save store clock json key next w').1
    unfolding save
    save-Leaves next w' foreign kept = elim (Result-cases (json.marshal next.1)) [
      | inl (e, fails) ↦ rw fails kept
      | inr (v, marshals) ↦
          rw (marshals, ex.set_answer) (sets leaky_key v LeakyBucket.day w' foreign kept)
    ]

    step-Leaves :
        (next : Option (Bool × LeakyBucketState)) (w' : W)
        → IsForeign store clock ex IsGuarded leaky_key
        → Leaves w'
        → Leaves
            (elim next as (λ x. Exec W Verdict) [
              | none ↦ panic
              | some d ↦ save store clock json key d
            ]
              w').1
    step-Leaves none w' foreign kept = kept
    step-Leaves (some next) w' foreign kept = save-Leaves next w' foreign kept

    pub leaky_bucket-Leaves :
        IsForeign store clock ex IsGuarded leaky_key
        → Leaves (LeakyBucket.allow store clock json lb key w).1
    unfolding LeakyBucket.allow
    leaky_bucket-Leaves foreign =
        let begun = (clock.read w).1 in
        let now = unix_nano (clock.read w).0 in
        let text = ex.shown begun leaky_key (ex.now begun) in
        rw ex.get_answer (
          step-Leaves (LeakyBucket.step lb now (LeakyBucket.load json now text))
            (store.get leaky_key begun).1 foreign (gets leaky_key begun (reads w same)))

  module _ (float : Float64 F) (json : Codec (TokenBucketState F)) (tb : TokenBucket F)
      (key : String) where
    abbrev token_key : String
    token_key = TokenBucket.state_key key

    get_bucket_state-Leaves :
        (state : TokenBucketState F) × (w' : W) × (get_bucket_state float store clock json tb
            token_key w
          ≡ (returns (ok state), w'))
        × Leaves w'
    unfolding get_bucket_state
    get_bucket_state-Leaves =
        let looked = (store.get token_key w).1 in
        let kept = gets token_key w same in
        let full : TokenBucketState F = record {
          tokens = tb.max_tokens;
          last_fill_time = unix_nano (clock.read looked).0;
        } in
        let text = ex.shown w token_key (ex.now w) in
        elim (Bool-cases (text == "")) [
          | inl empty ↦
              (full, (clock.read looked).1, rw (ex.get_answer, empty) refl, reads looked kept)
          | inr found ↦ elim (Result-cases (json.unmarshal text)) [
            | inl (e, fails) ↦ (
              full,
              (clock.read looked).1,
              rw (ex.get_answer, found, fails) refl,
              reads looked kept,
            )
            | inr (state, parses) ↦ (state, looked, rw (ex.get_answer, found, parses) refl, kept)
          ]
        ]

    pub token_bucket-Leaves :
        IsForeign store clock ex IsGuarded token_key
        → Leaves (TokenBucket.allow float store clock json tb key w).1
    unfolding TokenBucket.allow set_bucket_state
    token_bucket-Leaves foreign =
        let (state, w', got, kept) = get_bucket_state-Leaves in
        let next = consume float (refill float tb (clock.read w').0 state) in
        elim (Result-cases (json.marshal next.1)) [
          | inl (e, fails) ↦ rw (got, fails) (reads w' kept)
          | inr (v, marshals) ↦
              rw (got, marshals, ex.set_answer)
                (sets token_key v TokenBucket.day (clock.read w').1 foreign (reads w' kept))
        ]

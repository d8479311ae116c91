-- ===== src/Service/RateLimit/FailOpen.antt =====
-- The limiters while the store is out of order.
use throttle.Prelude.{String, ◌≡◌, refl, Bool, false, some, arith, ◌==◌, inl, inr, Bool-cases}
use throttle.Int.{ℤ, pos, ◌<ℤ◌}
use throttle.Int64.{add64, sub64, mul64}
use throttle.Exec.{Error, wrapped, Result, ok, err, returns, Exec, pure, or_return, ◌>>=◌}
use throttle.Time.{Clock, time_now, time_sub, unix_nano, second}
use throttle.Service.Limiters.Creation.{div64_total}
use throttle.Float64.{Float64}
use throttle.Storage.{Store}
use throttle.Limiter.{Verdict, verdict, fail_open}
use throttle.Limiter.TokenBucket
use throttle.Limiter.SlidingWindow
use throttle.Limiter.FixedWindow
use throttle.Limiter.LeakyBucket
use throttle.Service.Limiters.{Limiter, token, sliding, fixed, leaky, Codecs}
use throttle.Service.RateLimit.{as_rate_limiter}

module _ {F W : Type 0} (float : Float64 F) (store : Store F W) (clock : Clock W)
    (json : Codecs F) where
  -- Every read is answered with an error.
  abbrev pub ReadsFail : Type 0
  ReadsFail = (k : String) (w : W) → (e : Error) × ((store.get k w).0 ≡ returns (err e))

  -- The limiter lets the request through and reports an error.
  abbrev pub FailsOpen : Limiter F → String → W → Type 0
  FailsOpen lim key w =
      (e : Error) × (((as_rate_limiter float store clock json lim).allow key w).0
        ≡ returns (fail_open e))

  -- Where every read of the store fails, each limiter lets a request through with an error.
  pub allow_ReadsFail : (lim : Limiter F) (key : String) (w : W) → ReadsFail → FailsOpen lim key w
  unfolding as_rate_limiter TokenBucket.allow SlidingWindow.allow FixedWindow.allow
      LeakyBucket.allow
  allow_ReadsFail (token tb) key w fails =
      let (e, h) = fails (TokenBucket.state_key key) w in
      (wrapped "get bucket state" e, ground (arith, h))
  allow_ReadsFail (sliding sw) key w fails =
      let (e, h) = fails (SlidingWindow.state_key key) (clock.read w).1 in (e, ground (arith, h))
  allow_ReadsFail (fixed fw) key w fails =
      let (e, h) = fails (FixedWindow.state_key key) (clock.read w).1 in (e, ground (arith, h))
  allow_ReadsFail (leaky lb) key w fails =
      let (e, h) = fails (LeakyBucket.state_key key) (clock.read w).1 in (e, ground (arith, h))

  -- Reads are answered, by a text or an error, and every write is answered with an error.
  pub record WritesFail : Type 0 where
    pub reads : (k : String) (w : W) → (r : Result String) × ((store.get k w).0 ≡ returns r)
    pub writes :
        (k v : String) (d : ℤ) (w : W) → (e : Error) × ((store.set k v d w).0 ≡ returns (err e))

  -- Only a leaky bucket without a leak interval can panic.
  abbrev pub CannotPanic : Limiter F → Type 0
  CannotPanic (token tb) = Unit {0}
  CannotPanic (sliding sw) = Unit {0}
  CannotPanic (fixed fw) = Unit {0}
  CannotPanic (leaky lb) = pos 0 <ℤ lb.leak_interval

  module _ (fails : WritesFail) where
    -- A limiter's last steps, from the new state on.
    abbrev Saves : Exec W Verdict → Type 0
    Saves m = (w : W) → (e : Error) × ((m w).0 ≡ returns (fail_open e))

    Saves-state :
        (k : String) (d : ℤ) (allowed : Bool) (marshalled : Result String)
        → Saves (
            or_return
              (λ e. pure (fail_open e))
              (λ text. do
                done ← store.set k text d
                or_return (λ e. pure (fail_open e)) (λ _. pure (verdict allowed)) done)
              marshalled)
    Saves-state k d allowed (err e) w = (e, refl)
    Saves-state k d allowed (ok text) w =
        let (e, h) = fails.writes k text d w in (e, ground (arith, h))

    save_leaky :
        (key : String) (next : Bool × LeakyBucket.LeakyBucketState)
        → Saves (LeakyBucket.save store clock json.leaky_states key next)
    unfolding LeakyBucket.save
    save_leaky key (allowed, state) w =
        Saves-state (LeakyBucket.state_key key) LeakyBucket.day allowed
          (json.leaky_states.marshal state) w

    writes_bucket :
        (key : String) (marshalled : Result String) (w : W)
        → (e : Error) × ((or_return {W = W}
              (λ e. pure (err (wrapped "marshal bucket state" e)))
              (λ text. do
                done ← store.set key text TokenBucket.day
                or_return (λ e. pure (err (wrapped "set bucket state" e))) (λ _. pure (ok tt)) done)
              marshalled
              w).0
            ≡ returns (err e))
    writes_bucket key (err e) w = (wrapped "marshal bucket state" e, refl)
    writes_bucket key (ok text) w =
        let (e, h) = fails.writes key text TokenBucket.day w in
        (wrapped "set bucket state" e, ground (arith, h))

    set_bucket_state_fails :
        (key : String) (state : TokenBucket.TokenBucketState F) (w : W)
        → (e : Error) × ((TokenBucket.set_bucket_state float store clock json.token_states key state
              w).0
            ≡ returns (err e))
    unfolding TokenBucket.set_bucket_state
    set_bucket_state_fails key state w = writes_bucket key (json.token_states.marshal state) w

    sliding_answered :
        (sw : SlidingWindow.SlidingWindow) (key : String) (w : W) (r : Result String)
        → (store.get (SlidingWindow.state_key key) (clock.read w).1).0 ≡ returns r
        → FailsOpen (sliding sw) key w
    unfolding as_rate_limiter SlidingWindow.allow
    sliding_answered sw key w (err e) h = (e, ground (arith, h))
    sliding_answered sw key w (ok text) h =
        let now = unix_nano (clock.read w).0 in
        let next = SlidingWindow.step sw now (SlidingWindow.load json.sliding_states text) in
        let (e, saved) =
          Saves-state (SlidingWindow.state_key key) (add64 sw.window_duration second) next.0
            (json.sliding_states.marshal (record { timestamps = next.1 }))
            (store.get (SlidingWindow.state_key key) (clock.read w).1).1 in
        (e, rw h saved)

    fixed_saved :
        (key : String) (marshalled : Result String) (next : Bool × FixedWindow.FixedWindowState)
        (fw : FixedWindow.FixedWindow)
        → Saves (
            or_return
              (λ e. pure (fail_open e))
              (λ text. do
                t ← time_now clock
                let expiration = FixedWindow.expiration_after fw (time_sub next.1.window_end t)
                done ← store.set (FixedWindow.state_key key) text expiration
                or_return (λ e. pure (fail_open e)) (λ _. pure (verdict next.0)) done)
              marshalled)
    fixed_saved key (err e) next fw w = (e, refl)
    fixed_saved key (ok text) next fw w =
        let (e, h) =
          fails.writes (FixedWindow.state_key key) text
            (FixedWindow.expiration_after fw (time_sub next.1.window_end (clock.read w).0))
            (clock.read w).1 in
        (e, ground (arith, h))

    fixed_answered :
        (fw : FixedWindow.FixedWindow) (key : String) (w : W) (r : Result String)
        → (store.get (FixedWindow.state_key key) (clock.read w).1).0 ≡ returns r
        → FailsOpen (fixed fw) key w
    unfolding as_rate_limiter FixedWindow.allow
    fixed_answered fw key w (err e) h = (e, ground (arith, h))
    fixed_answered fw key w (ok text) h =
        let now = unix_nano (clock.read w).0 in
        let next = FixedWindow.admit fw (FixedWindow.load json.fixed_states fw now text) in
        let (e, saved) =
          fixed_saved key (json.fixed_states.marshal next.1) next fw
            (store.get (FixedWindow.state_key key) (clock.read w).1).1 in
        (e, rw h saved)

    step_total :
        (lb : LeakyBucket.LeakyBucket) (now : ℤ) (state : LeakyBucket.LeakyBucketState)
        → pos 0 <ℤ lb.leak_interval
        → (next : Bool × LeakyBucket.LeakyBucketState) × (LeakyBucket.step lb now state ≡ some next)
    unfolding LeakyBucket.step LeakyBucket.leak
    step_total lb now state h =
        let (n, e) = div64_total (sub64 now state.last_leak_time) lb.leak_interval h in
        let left = LeakyBucket.at_least_zero (sub64 state.count (mul64 n lb.leak_rate)) in
        (LeakyBucket.admit lb (record { count = left; last_leak_time = now }), ground (arith, e))

    leaky_answered :
        (lb : LeakyBucket.LeakyBucket) (key : String) (w : W) (r : Result String)
        → pos 0 <ℤ lb.leak_interval
        → (store.get (LeakyBucket.state_key key) (clock.read w).1).0 ≡ returns r
        → FailsOpen (leaky lb) key w
    unfolding as_rate_limiter LeakyBucket.allow
    leaky_answered lb key w (err e) p h = (e, ground (arith, h))
    leaky_answered lb key w (ok text) p h =
        let now = unix_nano (clock.read w).0 in
        let (next, e) = step_total lb now (LeakyBucket.load json.leaky_states now text) p in
        let (e', saved) =
          save_leaky key next (store.get (LeakyBucket.state_key key) (clock.read w).1).1 in
        (e', ground (arith, h, e, saved))

    token_parsed :
        (tb : TokenBucket.TokenBucket F) (key : String) (w : W) (text : String)
        (parsed : Result (TokenBucket.TokenBucketState F))
        → (store.get key w).0 ≡ returns (ok text)
        → (text == "") ≡ false
        → json.token_states.unmarshal text ≡ parsed
        → (found : TokenBucket.TokenBucketState F) × ((TokenBucket.get_bucket_state float store
              clock json.token_states tb key w).0
            ≡ returns (ok found))
    unfolding TokenBucket.get_bucket_state
    token_parsed tb key w text (ok state) h some_text parses =
        (state, ground (arith, h, some_text, parses))
    token_parsed tb key w text (err e) h some_text parses =
        let t = unix_nano (clock.read (store.get key w).1).0 in
        (
          record { tokens = tb.max_tokens; last_fill_time = t },
          ground (arith, h, some_text, parses),
        )

    token_state :
        (tb : TokenBucket.TokenBucket F) (key : String) (w : W) (text : String)
        → (store.get key w).0 ≡ returns (ok text)
        → (found : TokenBucket.TokenBucketState F) × ((TokenBucket.get_bucket_state float store
              clock json.token_states tb key w).0
            ≡ returns (ok found))
    unfolding TokenBucket.get_bucket_state
    token_state tb key w text h =
        let t = unix_nano (clock.read (store.get key w).1).0 in
        elim (Bool-cases (text == "")) [
          | inl empty ↦
              (record { tokens = tb.max_tokens; last_fill_time = t }, ground (arith, h, empty))
          | inr some_text ↦
              token_parsed tb key w text (json.token_states.unmarshal text) h some_text refl
        ]

    token_answered :
        (tb : TokenBucket.TokenBucket F) (key : String) (w : W) (r : Result String)
        → (store.get (TokenBucket.state_key key) w).0 ≡ returns r
        → FailsOpen (token tb) key w
    unfolding as_rate_limiter TokenBucket.allow
    token_answered tb key w (err e) h = (wrapped "get bucket state" e, ground (arith, h))
    token_answered tb key w (ok text) h =
        let sk = TokenBucket.state_key key in
        let (state, found) = token_state tb sk w text h in
        let w' = (TokenBucket.get_bucket_state float store clock json.token_states tb sk w).1 in
        let next =
          TokenBucket.consume float (TokenBucket.refill float tb (clock.read w').0 state) in
        let (e, fails_to_write) = set_bucket_state_fails sk next.1 (clock.read w').1 in
        (e, ground (arith, found, fails_to_write))

    -- Where reads of the store are answered and every write fails, each limiter, unless it is a leaky
    -- bucket without a leak interval, lets a request through with an error.
    pub allow_WritesFail :
        (lim : Limiter F) (key : String) (w : W) → CannotPanic lim → FailsOpen lim key w
    allow_WritesFail (token tb) key w h =
        let (r, e) = fails.reads (TokenBucket.state_key key) w in token_answered tb key w r e
    allow_WritesFail (sliding sw) key w h =
        let (r, e) = fails.reads (SlidingWindow.state_key key) (clock.read w).1 in
        sliding_answered sw key w r e
    allow_WritesFail (fixed fw) key w h =
        let (r, e) = fails.reads (FixedWindow.state_key key) (clock.read w).1 in
        fixed_answered fw key w r e
    allow_WritesFail (leaky lb) key w h =
        let (r, e) = fails.reads (LeakyBucket.state_key key) (clock.read w).1 in
        leaky_answered lb key w r h e

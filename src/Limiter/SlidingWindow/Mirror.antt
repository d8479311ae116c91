-- ===== src/Limiter/SlidingWindow/Mirror.antt =====
-- One request through `Allow` of sliding_window.go over the in-memory store: the stored timestamps
-- beside those of the algorithm.
use throttle.Prelude.{
  ℕ, zero, suc, String, ◌≡◌, refl, sym, ap, ◌∙◌, true, ◌⊎◌, inl, inr, List, [], arith, Bool-cases,
}
use throttle.Int.{ℤ, ◌+ℤ◌, ◌-ℤ◌, ◌≤ℤ◌, ◌<ℤ◌, int_laws}
use throttle.Int64.{sub64, sub64-eq, add64-eq, wrap64-eq, IsInt64}
use throttle.Time.{unix_nano, second}
use throttle.Float64.{Float64}
use throttle.Codec.{Codec, IsCodecAt}
use throttle.Memory.{World, world_clock, memory_store, is_expired, set}
use throttle.Memory.Values.{value_at, next_time}
use throttle.Memory.Readings.{NeverBack, NeverBack-le, get-IsLater, clock-set, next_time-set}
use throttle.Limiter.SlidingWindow.{
  SlidingWindow, SlidingWindowState, filtered, admit, load, step, state_key, allow,
}
use throttle.Limiter.SlidingWindow.Recent.{
  Rising, recent, filtered-recent, Rising-recent, Rising-append, Rising-mono, recent_none,
}
use throttle.Limiter.SlidingWindow.OnMemory.{
  decision, looked_up, read_once, time_to_live, allow_run, allow-step,
}

expired-lt : (e t : ℤ) → is_expired e t ≡ true → e <ℤ t
expired-lt e t h = ground arith

outlived : (a b d e t : ℤ) → a ≤ℤ b → b +ℤ (d +ℤ e) <ℤ t → a +ℤ d +ℤ e <ℤ t
outlived a b d e t h k = omega int_laws

pub load_nothing : (json : Codec SlidingWindowState) → load json "" ≡ []
unfolding load
load_nothing json = refl

module _ (sw : SlidingWindow) where
  step-Rising :
      (lo last now : ℤ) (xs : List ℤ)
      → Rising lo xs last
      → last ≤ℤ now
      → Rising lo (step sw now xs).1 now
  unfolding step admit
  step-Rising lo last now xs r h =
      let start = sub64 now sw.window_duration in
      let kept = Rising-recent start lo last xs r in
      rw (filtered-recent start lo last xs r) (
        ground (
          arith,
          Rising-append lo last now (recent start xs) kept h,
          Rising-mono lo last now (recent start xs) kept h,
        ))

  -- Nothing that was stored counts any more: the step is that from no timestamps.
  step_late :
      (lo last now : ℤ) (xs : List ℤ)
      → Rising lo xs last
      → last ≤ℤ sub64 now sw.window_duration
      → step sw now [] ≡ step sw now xs
  unfolding step filtered
  step_late lo last now xs r h = ap (admit sw now) (
      sym (
        filtered-recent (sub64 now sw.window_duration) lo last xs r
        ∙ recent_none (sub64 now sw.window_duration) lo last xs r h))

module _ {F : Type 0} (float : Float64 F) (json : Codec SlidingWindowState) (sw : SlidingWindow)
    (key : String) where
  open sw use {window_duration}

  -- The store holds the timestamps `xs`, the last of them set at `last`, or has dropped them after
  -- the window and a second.
  pub record Mirrors (xs : List ℤ) (last : ℤ) (w : World F) : Type 0 where
    pub lowest : ℤ
    pub rising : Rising lowest xs last
    pub past : last ≤ℤ next_time w
    pub found :
        (t : ℤ)
        → (load json (value_at w (state_key key) t) ≡ xs)
          ⊎ ((load json (value_at w (state_key key) t) ≡ [])
              × (last +ℤ window_duration +ℤ second <ℤ t))

  -- The world that a request leaves.
  abbrev pub after : World F → World F
  after w = (allow (memory_store float) world_clock json sw key w).1

  -- A request whose time and window start are `int64`s, and that looks its state up within a second
  -- of reading its time.
  pub record IsPunctual (w : World F) : Type 0 where
    pub now_fits : IsInt64 (next_time w)
    pub start_fits : IsInt64 (next_time w -ℤ window_duration)
    pub looks_up_soon : next_time (read_once float json sw key w) ≤ℤ next_time w +ℤ second

  abbrev pub Punctual : ℕ → World F → Type 0
  Punctual zero w = Unit {0}
  Punctual (suc n) w = IsPunctual w × Punctual n (after w)

  pub unix_nano-punctual : (w : World F) → IsPunctual w → unix_nano (next_time w) ≡ next_time w
  unfolding unix_nano
  unix_nano-punctual w soon = wrap64-eq (next_time w) soon.now_fits

  module _ (w : World F) (xs : List ℤ) (last : ℤ) (r : Mirrors xs last w)
      (soon : IsPunctual w) where
    pub same_decision : decision float json sw key w ≡ step sw (next_time w) xs
    unfolding value_at
    same_decision = elim (r.found (next_time (read_once float json sw key w))) [
      | inl same ↦ rw (unix_nano-punctual w soon, same)
      | inr (gone, late) ↦
          rw (unix_nano-punctual w soon, gone)
            (step_late sw r.lowest last (next_time w) xs r.rising (
              rw (sub64-eq (next_time w) window_duration soon.start_fits)
                (let s = soon.looks_up_soon in omega int_laws)))
    ]

  module _ (codec : (s : SlidingWindowState) → IsCodecAt json s)
      (fits : IsInt64 (window_duration +ℤ second)) where
    after-set :
        (w : World F)
        → after w
          ≡ (set
              (state_key key)
              (codec (record { timestamps = (decision float json sw key w).1 })).text
              (time_to_live float json sw key w)
              (looked_up float json sw key w)).1
    after-set w =
        ap (λ r. r.1)
          (allow_run float json sw key w
            (codec (record { timestamps = (decision float json sw key w).1 })))

    pub after_clock : (w : World F) → (after w).clock ≡ w.clock
    after_clock w = rw (after-set w) (
        clock-set _ _ _ (looked_up float json sw key w)
        ∙ (get-IsLater (state_key key) (read_once float json sw key w)).same_clock)

    module _ (w : World F) (steady : NeverBack w.clock) where
      abbrev set_reading : ℕ
      set_reading = (looked_up float json sw key w).readings

      looked_up_time : next_time (looked_up float json sw key w) ≡ w.clock set_reading
      looked_up_time =
          ap (λ (c : ℕ → ℤ). c set_reading)
            (get-IsLater (state_key key) (read_once float json sw key w)).same_clock

      after_time : next_time (after w) ≡ w.clock (suc set_reading)
      after_time =
          ap next_time (after-set w)
          ∙ next_time-set _ _ _ (looked_up float json sw key w)
          ∙ ap (λ (c : ℕ → ℤ). c (suc set_reading))
              (get-IsLater (state_key key) (read_once float json sw key w)).same_clock

      -- The times read by one request and the next, in order.
      pub times_in_order :
          (next_time w ≤ℤ next_time (looked_up float json sw key w))
          × (next_time w ≤ℤ next_time (after w))
      times_in_order =
          let more = (get-IsLater (state_key key) (read_once float json sw key w)).more_readings in
          (
            rw looked_up_time (NeverBack-le w.clock steady w.readings set_reading (omega arith)),
            rw after_time (NeverBack-le w.clock steady w.readings (suc set_reading) (omega arith)),
          )

      found_after :
          (xs : List ℤ) (last : ℤ)
          → Mirrors xs last w
          → IsPunctual w
          → (t : ℤ)
          → (load json (value_at (after w) (state_key key) t) ≡ (step sw (next_time w) xs).1)
            ⊎ ((load json (value_at (after w) (state_key key) t) ≡ [])
                × (next_time w +ℤ window_duration +ℤ second <ℤ t))
      found_after xs last r soon t =
          let law = codec (record { timestamps = (decision float json sw key w).1 }) in
          let loads = (allow-step float json sw key w law).1 t in
          let same = same_decision w xs last r soon in
          let ends =
            next_time (looked_up float json sw key w) +ℤ time_to_live float json sw key w in
          elim (Bool-cases (is_expired ends t)) [
            | inl expired ↦ inr (
              ground (arith, loads, expired),
              outlived (next_time w) (next_time (looked_up float json sw key w)) window_duration
                  second t times_in_order.0
                  (rw (add64-eq window_duration second fits) at (expired-lt ends t expired)),
            )
            | inr alive ↦ inl (ground (arith, loads, alive, same))
          ]

      pub after-Mirrors :
          (xs : List ℤ) (last : ℤ)
          → Mirrors xs last w
          → IsPunctual w
          → Mirrors (step sw (next_time w) xs).1 (next_time w) (after w)
      after-Mirrors xs last r soon = record {
        lowest = r.lowest;
        rising = step-Rising sw r.lowest last (next_time w) xs r.rising r.past;
        past = let order = times_in_order in omega arith;
        found = found_after xs last r soon;
      }

-- ===== src/Limiter/FixedWindow/Mirror.antt =====
-- One request through `Allow` of fixed_window.go over the in-memory store: the stored state beside that
-- of the algorithm.
use throttle.Prelude.{
  ℕ, zero, suc, String, ◌≡◌, refl, ap, ◌∙◌, Bool, true, ◌⊎◌, inl, inr, arith, Bool-cases,
}
use throttle.Int.{ℤ, pos, ◌+ℤ◌, ◌≤ℤ◌, ◌<ℤ◌, leb_ℤ, int_laws}
use throttle.Int64.{IsInt64, add64-eq, wrap64-eq, IsInt64-between}
use throttle.Time.{unix_nano, second}
use throttle.Float64.{Float64}
use throttle.Codec.{Codec, IsCodecAt}
use throttle.Memory.{World, world_clock, memory_store, is_expired, set}
use throttle.Memory.Values.{value_at, next_time}
use throttle.Memory.Readings.{NeverBack, NeverBack-le, get-IsLater, clock-set, next_time-set}
use throttle.Limiter.FixedWindow.{
  FixedWindow, FixedWindowState, fresh, roll, admit, load, state_key, allow,
}
use throttle.Limiter.FixedWindow.OnMemory.{
  decision, read_once, looked_up, read_again, time_to_live, allow_run, allow-admit,
}
use throttle.Limiter.FixedWindow.Expiration.{expired_late}
use throttle.Limiter.FixedWindow.Quota.{step}

expired-lt : (e t : ℤ) → is_expired e t ≡ true → e <ℤ t
expired-lt e t h = ground arith

pub load_nothing :
    (json : Codec FixedWindowState) (fw : FixedWindow) (now : ℤ)
    → load json fw now "" ≡ fresh fw now
unfolding load
load_nothing json fw now = refl

module _ (fw : FixedWindow) where
  open fw use {window_duration}

  -- In a window that is over a state counts as a fresh one.
  pub roll_over :
      (now : ℤ) (state : FixedWindowState)
      → state.window_end ≤ℤ now
      → fresh fw now ≡ roll fw now state
  unfolding roll
  roll_over now state h = ground arith

  window_end-admit : (state : FixedWindowState) → (admit fw state).1.window_end ≡ state.window_end
  unfolding admit
  window_end-admit state = ground arith

  window_end-roll :
      (now : ℤ) (state : FixedWindowState)
      → pos 0 ≤ℤ now
      → pos 0 ≤ℤ window_duration
      → IsInt64 (now +ℤ window_duration)
      → pos 0 ≤ℤ state.window_end
      → state.window_end ≤ℤ now +ℤ window_duration
      → (pos 0 ≤ℤ (roll fw now state).window_end)
        × ((roll fw now state).window_end ≤ℤ now +ℤ window_duration)
  unfolding roll
  window_end-roll now state h k fits low high = elim (Bool-cases (leb_ℤ state.window_end now)) [
    | inl over ↦ rw (over, add64-eq now window_duration fits) (omega int_laws, omega int_laws)
    | inr inside ↦ rw inside (low, high)
  ]

module _ {F : Type 0} (float : Float64 F) (json : Codec FixedWindowState) (fw : FixedWindow)
    (key : String) where
  open fw use {window_duration}

  -- The store holds the state, or has dropped it more than a second after its window's end.
  pub record Mirrors (state : FixedWindowState) (w : World F) : Type 0 where
    pub end_low : pos 0 ≤ℤ state.window_end
    pub end_high : state.window_end ≤ℤ next_time w +ℤ window_duration
    pub found :
        (now t : ℤ)
        → next_time w ≤ℤ now
        → (load json fw now (value_at w (state_key key) t) ≡ roll fw now state)
          ⊎ ((load json fw now (value_at w (state_key key) t) ≡ fresh fw now)
              × (state.window_end +ℤ second <ℤ t))

  abbrev pub after : World F → World F
  after w = (allow (memory_store float) world_clock json fw key w).1

  -- A request after the epoch, whose window's end is an `int64` with a second to spare, and that
  -- looks its state up within a second of reading its time.
  pub record IsPunctual (w : World F) : Type 0 where
    pub now_nonneg : pos 0 ≤ℤ next_time w
    pub fits : IsInt64 (next_time (looked_up float json fw key w) +ℤ window_duration +ℤ second)
    pub looks_up_soon : next_time (read_once float json fw key w) ≤ℤ next_time w +ℤ second

  abbrev pub Punctual : ℕ → World F → Type 0
  Punctual zero w = Unit {0}
  Punctual (suc n) w = IsPunctual w × Punctual n (after w)

  module _ (codec : (s : FixedWindowState) → IsCodecAt json s)
      (positive : pos 0 ≤ℤ window_duration) where
    after-set :
        (w : World F)
        → after w
          ≡ (set
              (state_key key)
              (codec (decision float json fw key w).1).text
              (time_to_live float json fw key w)
              (read_again float json fw key w)).1
    after-set w =
        ap (λ r. r.1) (allow_run float json fw key w (codec (decision float json fw key w).1))

    pub after_clock : (w : World F) → (after w).clock ≡ w.clock
    after_clock w = rw (after-set w) (
        clock-set _ _ _ (read_again float json fw key w)
        ∙ (get-IsLater (state_key key) (read_once float json fw key w)).same_clock)

    module _ (w : World F) (steady : NeverBack w.clock) (soon : IsPunctual w) where
      abbrev until_reading : ℕ
      until_reading = (looked_up float json fw key w).readings

      clock_at : (i : ℕ) → (looked_up float json fw key w).clock i ≡ w.clock i
      clock_at i =
          ap (λ (c : ℕ → ℤ). c i)
            (get-IsLater (state_key key) (read_once float json fw key w)).same_clock

      after_time : next_time (after w) ≡ w.clock (suc (suc until_reading))
      after_time =
          ap next_time (after-set w)
          ∙ next_time-set _ _ _ (read_again float json fw key w)
          ∙ clock_at (suc (suc until_reading))

      -- The times read by the request and the next, in order.
      times_in_order :
          (next_time w ≤ℤ next_time (looked_up float json fw key w))
          × (next_time (looked_up float json fw key w)
              ≤ℤ next_time (read_again float json fw key w))
          × (next_time (looked_up float json fw key w) ≤ℤ next_time (after w))
      times_in_order =
          let more = (get-IsLater (state_key key) (read_once float json fw key w)).more_readings in
          (
            rw (clock_at until_reading)
                (NeverBack-le w.clock steady w.readings until_reading (omega arith)),
            rw (clock_at until_reading, clock_at (suc until_reading)) (steady until_reading),
            rw (clock_at until_reading, after_time)
                (NeverBack-le w.clock steady until_reading (suc (suc until_reading)) (omega arith)),
          )

      pub now_fits : IsInt64 (next_time w +ℤ window_duration) × IsInt64 (next_time w)
      now_fits =
          let order = times_in_order in
          let now = soon.now_nonneg in
          let hi = next_time (looked_up float json fw key w) +ℤ window_duration +ℤ second in
          (
            IsInt64-between (pos 0) (next_time w +ℤ window_duration) hi (omega arith) soon.fits
                (omega int_laws) (omega int_laws),
            IsInt64-between (pos 0) (next_time w) hi (omega arith) soon.fits (omega int_laws)
                (omega int_laws),
          )

      pub now-eq : unix_nano (next_time w) ≡ next_time w
      unfolding unix_nano
      now-eq = wrap64-eq (next_time w) now_fits.1

      module _ (state : FixedWindowState) (r : Mirrors state w) where
        pub same_decision : decision float json fw key w ≡ step fw (next_time w) state
        unfolding step value_at
        same_decision = rw now-eq (
            ap (admit fw)
              (elim (r.found (next_time w) (next_time (read_once float json fw key w))
                (omega arith)) [
                  | inl same ↦ same
                  | inr (gone, late) ↦
                      gone
                      ∙ roll_over fw (next_time w) state
                          (let s = soon.looks_up_soon in omega int_laws)
                ]))

        abbrev next : FixedWindowState
        next = (step fw (next_time w) state).1

        end-bounds :
            (pos 0 ≤ℤ next.window_end) × (next.window_end ≤ℤ next_time w +ℤ window_duration)
        unfolding step
        end-bounds = rw (window_end-admit fw (roll fw (next_time w) state)) (
            window_end-roll fw (next_time w) state soon.now_nonneg positive now_fits.0 r.end_low
              r.end_high)

        dropped_late :
            (t : ℤ)
            → is_expired
                (next_time (read_again float json fw key w) +ℤ time_to_live float json fw key w)
                t
              ≡ true
            → next.window_end +ℤ second <ℤ t
        dropped_late t h =
            let order = times_in_order in
            let bounds = end-bounds in
            let now = soon.now_nonneg in
            expired_late fw next.window_end (next_time (looked_up float json fw key w))
              (next_time (read_again float json fw key w)) positive bounds.0 (omega int_laws)
              (omega int_laws) soon.fits order.1 t (expired-lt _ t (rw same_decision at h))

        pub after-Mirrors : Mirrors next (after w)
        after-Mirrors = record {
          end_low = end-bounds.0;
          end_high = let order = times_in_order in let bounds = end-bounds in omega int_laws;
          found = λ now t _. found_after now t;
        }
          where
            found_after :
                (now t : ℤ)
                → (load json fw now (value_at (after w) (state_key key) t) ≡ roll fw now next)
                  ⊎ ((load json fw now (value_at (after w) (state_key key) t) ≡ fresh fw now)
                      × (next.window_end +ℤ second <ℤ t))
            found_after now t =
                let law = codec (decision float json fw key w).1 in
                let loads = (allow-admit float json fw key w law).1 now t in
                let ends =
                  next_time (read_again float json fw key w) +ℤ time_to_live float json fw key w in
                elim (Bool-cases (is_expired ends t)) [
                  | inl expired ↦ inr (ground (arith, loads, expired), dropped_late t expired)
                  | inr alive ↦ inl (
                      ground (arith, loads, alive)
                      ∙ ap (λ (d : Bool × FixedWindowState). roll fw now d.1) same_decision)
                ]

-- ===== src/Limiter/FixedWindow/Runs.antt =====
-- Runs of requests through `Allow` of fixed_window.go over the in-memory store.
use throttle.Prelude.{ℕ, zero, suc, String, ◌≡◌, refl, ap, ap₂, ◌∙◌, Bool, inl, ◌∷◌}
use throttle.Int.{ℤ, pos, ◌≤ℤ◌, int_laws}
use throttle.Exec.{returns}
use throttle.Float64.{Float64}
use throttle.Codec.{Codec, IsCodecAt}
use throttle.Memory.{World, world_clock, memory_store}
use throttle.Memory.Values.{value_at, next_time}
use throttle.Memory.Readings.{NeverBack}
use throttle.Limiter.{RateLimiter, verdict}
use throttle.Limiter.Requests.{outcomes, starts, decided}
use throttle.Limiter.FixedWindow.{
  FixedWindow, FixedWindowState, roll, load, state_key, fixed_window_limiter,
}
use throttle.Limiter.FixedWindow.OnMemory.{decision, allow-admit}
use throttle.Limiter.FixedWindow.Quota.{step, decide, counted}
use throttle.Limiter.FixedWindow.Mirror.{
  load_nothing, roll_over, Mirrors, after_clock, same_decision, after-Mirrors, Punctual, after,
  now-eq,
}

module _ {F : Type 0} (float : Float64 F) (json : Codec FixedWindowState) (fw : FixedWindow)
    (key : String) where
  open fw use {window_duration}

  module _ (codec : (s : FixedWindowState) → IsCodecAt json s)
      (positive : pos 0 ≤ℤ window_duration) where
    abbrev limiter : RateLimiter (World F)
    limiter = fixed_window_limiter (memory_store float) world_clock json fw

    outcomes-decide_windows_from :
        (n : ℕ) (w : World F) (state : FixedWindowState)
        → NeverBack w.clock
        → Mirrors float json fw key state w
        → Punctual float json fw key n w
        → outcomes world_clock limiter key n w
          ≡ decided (decide fw state (starts world_clock limiter key n w))
    unfolding outcomes starts decide
    outcomes-decide_windows_from zero w state steady r soon = refl
    outcomes-decide_windows_from (suc n) w state steady r soon =
        let law = codec (decision float json fw key w).1 in
        let rest =
          outcomes-decide_windows_from n (after float json fw key w) (step fw (next_time w) state).1
            (rw (after_clock float json fw key codec positive w) steady)
            (after-Mirrors float json fw key codec positive w steady soon.0 state r) soon.1 in
        rw (now-eq float json fw key codec positive w steady soon.0) (
          ap₂ ◌∷◌
            ((allow-admit float json fw key w law).0
              ∙ ap (λ (d : Bool × FixedWindowState). returns (verdict d.0))
                  (same_decision float json fw key codec positive w steady soon.0 state r))
            rest)

    -- For a clock that never goes back, punctual requests, a window that is not negative and a codec
    -- that round-trips every state: if the run begins after the epoch, from a store without a state for the key, the outcomes of a run
    -- of `Allow` over the in-memory store are the decisions of the algorithm, from a window that ends
    -- as the run begins, at the times that the requests read.
    pub outcomes-decide_windows :
        (n : ℕ) (w : World F)
        → NeverBack w.clock
        → pos 0 ≤ℤ next_time w
        → ((t : ℤ) → value_at w (state_key key) t ≡ "")
        → Punctual float json fw key n w
        → outcomes world_clock limiter key n w
          ≡ decided (decide fw (counted 0 (next_time w)) (starts world_clock limiter key n w))
    outcomes-decide_windows n w steady begins unset soon =
        outcomes-decide_windows_from n w (counted 0 (next_time w)) steady
          (record {
            end_low = begins;
            end_high = omega int_laws;
            found = λ now t later. inl (load_unset now t later);
          })
          soon
      where
        load_unset :
            (now t : ℤ)
            → next_time w ≤ℤ now
            → load json fw now (value_at w (state_key key) t)
              ≡ roll fw now (counted 0 (next_time w))
        load_unset now t later =
            rw (unset t)
              (load_nothing json fw now ∙ roll_over fw now (counted 0 (next_time w)) later)

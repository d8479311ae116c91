-- ===== src/Limiter/SlidingWindow/Runs.antt =====
-- Runs of requests through `Allow` of sliding_window.go over the in-memory store.
use throttle.Prelude.{
  ℕ, zero, suc, String, ◌≡◌, refl, ap, ap₂, ◌∙◌, Bool, inl, List, [], ◌∷◌, arith,
}
use throttle.Int.{ℤ, ◌+ℤ◌}
use throttle.Int64.{IsInt64}
use throttle.Time.{second}
use throttle.Float64.{Float64}
use throttle.Codec.{Codec, IsCodecAt}
use throttle.Memory.{World, world_clock, memory_store}
use throttle.Memory.Values.{value_at, next_time}
use throttle.Memory.Readings.{NeverBack}
use throttle.Exec.{returns}
use throttle.Limiter.{RateLimiter, verdict}
use throttle.Limiter.Requests.{outcomes, starts, decided}
use throttle.Limiter.SlidingWindow.{
  SlidingWindow, SlidingWindowState, load, step, state_key, sliding_window_limiter,
}
use throttle.Limiter.SlidingWindow.OnMemory.{decision, allow-step}
use throttle.Limiter.SlidingWindow.Quota.{decide}
use throttle.Limiter.SlidingWindow.Mirror.{
  load_nothing, Mirrors, same_decision, after-Mirrors, after_clock, Punctual, after,
  unix_nano-punctual,
}

module _ {F : Type 0} (float : Float64 F) (json : Codec SlidingWindowState) (sw : SlidingWindow)
    (key : String) where
  open sw use {window_duration}

  module _ (codec : (s : SlidingWindowState) → IsCodecAt json s)
      (fits : IsInt64 (window_duration +ℤ second)) where
    abbrev limiter : RateLimiter (World F)
    limiter = sliding_window_limiter (memory_store float) world_clock json sw

    outcomes-decide_from :
        (n : ℕ) (w : World F) (xs : List ℤ) (last : ℤ)
        → NeverBack w.clock
        → Mirrors float json sw key xs last w
        → Punctual float json sw key n w
        → outcomes world_clock limiter key n w
          ≡ decided (decide sw xs (starts world_clock limiter key n w))
    unfolding outcomes starts decide
    outcomes-decide_from zero w xs last steady r soon = refl
    outcomes-decide_from (suc n) w xs last steady r soon =
        let law = codec (record { timestamps = (decision float json sw key w).1 }) in
        let rest =
          outcomes-decide_from n (after float json sw key w) (step sw (next_time w) xs).1
            (next_time w) (rw (after_clock float json sw key codec fits w) steady)
            (after-Mirrors float json sw key codec fits w steady xs last r soon.0) soon.1 in
        rw (unix_nano-punctual float json sw key w soon.0) (
          ap₂ ◌∷◌
            ((allow-step float json sw key w law).0
              ∙ ap (λ (d : Bool × List ℤ). returns (verdict d.0))
                  (same_decision float json sw key w xs last r soon.0))
            rest)

    -- For a clock that never goes back, punctual requests, a window that fits an `int64` with a second
    -- more, and a codec that round-trips every state: from a store without a state for the key, the
    -- outcomes of a run of `Allow` over the in-memory store are the decisions of the algorithm at the
    -- times that the requests read.
    pub outcomes-decide :
        (n : ℕ) (w : World F)
        → NeverBack w.clock
        → ((t : ℤ) → value_at w (state_key key) t ≡ "")
        → Punctual float json sw key n w
        → outcomes world_clock limiter key n w
          ≡ decided (decide sw [] (starts world_clock limiter key n w))
    outcomes-decide n w steady unset soon =
        outcomes-decide_from n w [] (next_time w) steady
          (record {
            lowest = next_time w;
            rising = omega arith;
            past = omega arith;
            found = λ t. inl (load_unset t);
          })
          soon
      where
        load_unset : (t : ℤ) → load json (value_at w (state_key key) t) ≡ []
        load_unset t = rw (unset t) (load_nothing json)

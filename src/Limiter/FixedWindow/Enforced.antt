-- ===== src/Limiter/FixedWindow/Enforced.antt =====
-- The quota as a client of the in-memory store meets it.
use throttle.Prelude.{
  ℕ, zero, suc, ◌<◌, String, ◌≡◌, refl, ap, ◌∙◌, true, false, List, ◌∷◌, arith, All,
}
use throttle.Int.{ℤ, pos, ◌+ℤ◌, ◌≤ℤ◌, ◌<ℤ◌}
use throttle.Int64.{IsInt64, two_63}
use throttle.Float64.{Float64}
use throttle.Codec.{Codec, IsCodecAt}
use throttle.Memory.{World, world_clock, memory_store}
use throttle.Memory.Values.{value_at, next_time}
use throttle.Memory.Readings.{NeverBack}
use throttle.Limiter.Decisions.{first_granted}
use throttle.Limiter.{RateLimiter}
use throttle.Limiter.Requests.{outcomes, starts, decided}
use throttle.Limiter.FixedWindow.{FixedWindow, FixedWindowState, state_key, fixed_window_limiter}
use throttle.Limiter.FixedWindow.Quota.{
  decide, counted, decide_inside, step-rolls, step-rolls_full, window_end,
}
use throttle.Limiter.FixedWindow.Mirror.{Punctual, after, now_fits, now-eq}
use throttle.Limiter.FixedWindow.Runs.{outcomes-decide_windows}

module _ (fw : FixedWindow) where
  -- From a window that ends at the first request, the requests of the next window.
  decide_afresh :
      (m : ℕ) (t : ℤ) (ts : List ℤ)
      → fw.max_requests ≡ pos m
      → m < two_63
      → IsInt64 (t +ℤ fw.window_duration)
      → All (λ u. u <ℤ t +ℤ fw.window_duration) ts
      → decide fw (counted 0 t) (t ∷ ts) ≡ first_granted m (t ∷ ts)
  unfolding decide first_granted
  decide_afresh zero t ts limit small fits inside =
      rw
        (
          step-rolls_full fw 0 limit small t t 0 (omega arith) refl,
          window_end fw 0 limit small t fits,
        )
        (ap (λ bs. false ∷ bs)
          (decide_inside fw 0 limit small (t +ℤ fw.window_duration) 0 0 ts refl inside))
  decide_afresh (suc k) t ts limit small fits inside =
      rw
        (
          step-rolls fw (suc k) limit small t t 0 (omega arith) (omega arith),
          window_end fw (suc k) limit small t fits,
        )
        (ap (λ bs. true ∷ bs)
          (decide_inside fw (suc k) limit small (t +ℤ fw.window_duration) 1 k ts (omega arith)
            inside))

module _ {F : Type 0} (float : Float64 F) (json : Codec FixedWindowState) (fw : FixedWindow)
    (key : String) (codec : (s : FixedWindowState) → IsCodecAt json s)
    (positive : pos 0 ≤ℤ fw.window_duration) where
  abbrev limiter : RateLimiter (World F)
  limiter = fixed_window_limiter (memory_store float) world_clock json fw

  decide_run :
      (m n : ℕ) (w : World F)
      → fw.max_requests ≡ pos m
      → m < two_63
      → NeverBack w.clock
      → Punctual float json fw key n w
      → All (λ u. u <ℤ next_time w +ℤ fw.window_duration) (starts world_clock limiter key n w)
      → decide fw (counted 0 (next_time w)) (starts world_clock limiter key n w)
        ≡ first_granted m (starts world_clock limiter key n w)
  unfolding starts decide first_granted
  decide_run m zero w limit small steady soon inside = refl
  decide_run m (suc n) w limit small steady soon inside =
      rw (now-eq float json fw key codec positive w steady soon.0) (
        decide_afresh fw m (next_time w)
          (starts world_clock limiter key n (after float json fw key w)) limit small
          (now_fits float json fw key codec positive w steady soon.0).0 inside.1)

  -- For a clock that never goes back, punctual requests after the epoch, a window that is not negative
  -- and a codec that round-trips every state: of a run of requests through `Allow` over the in-memory
  -- store, from a store without a state for the key, that all read a time within one window length of
  -- the first, exactly the first `m` are let through, for the limit `m` below two to the 63.
  pub allow-first_granted :
      (m n : ℕ) (w : World F)
      → fw.max_requests ≡ pos m
      → m < two_63
      → NeverBack w.clock
      → pos 0 ≤ℤ next_time w
      → ((t : ℤ) → value_at w (state_key key) t ≡ "")
      → Punctual float json fw key n w
      → All (λ u. u <ℤ next_time w +ℤ fw.window_duration) (starts world_clock limiter key n w)
      → outcomes world_clock limiter key n w
        ≡ decided (first_granted m (starts world_clock limiter key n w))
  allow-first_granted m n w limit small steady begins unset soon inside =
      outcomes-decide_windows float json fw key codec positive n w steady begins unset soon
      ∙ ap decided (decide_run m n w limit small steady soon inside)

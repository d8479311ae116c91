-- ===== src/Limiter/SlidingWindow/Enforced.antt =====
-- The limit as a client of the in-memory store meets it.
use throttle.Prelude.{ℕ, zero, suc, String, ◌≡◌, arith}
use throttle.Int.{ℤ, pos, ◌+ℤ◌, ◌≤ℤ◌}
use throttle.Int64.{IsInt64}
use throttle.Time.{second}
use throttle.Float64.{Float64}
use throttle.Codec.{Codec, IsCodecAt}
use throttle.Memory.{World, world_clock, memory_store}
use throttle.Memory.Values.{value_at, next_time}
use throttle.Memory.Readings.{NeverBack}
use throttle.Limiter.Requests.{outcomes, starts, let_through, let_through-decided}
use throttle.Limiter.SlidingWindow.{
  SlidingWindow, SlidingWindowState, state_key, sliding_window_limiter,
}
use throttle.Limiter.SlidingWindow.Quota.{InOrder, WithinLimit, decide-WithinLimit}
use throttle.Limiter.SlidingWindow.Mirror.{
  Punctual, after, after_clock, times_in_order, unix_nano-punctual,
}
use throttle.Limiter.SlidingWindow.Runs.{outcomes-decide}

module _ {F : Type 0} (float : Float64 F) (json : Codec SlidingWindowState) (sw : SlidingWindow)
    (key : String) (codec : (s : SlidingWindowState) → IsCodecAt json s)
    (fits : IsInt64 (sw.window_duration +ℤ second)) where
  starts-InOrder :
      (n : ℕ) (lo : ℤ) (w : World F)
      → NeverBack w.clock
      → lo ≤ℤ next_time w
      → Punctual float json sw key n w
      → InOrder sw lo (
          starts world_clock
            (sliding_window_limiter (memory_store float) world_clock json sw)
            key
            n
            w)
  unfolding starts
  starts-InOrder zero lo w steady le soon = tt
  starts-InOrder (suc n) lo w steady le soon = rw (unix_nano-punctual float json sw key w soon.0) (
    le,
    soon.0.start_fits,
    starts-InOrder n (next_time w) (after float json sw key w)
        (rw (after_clock float json sw key codec fits w) steady)
        (times_in_order float json sw key codec fits w steady).1 soon.1,
  )

  -- For a clock that never goes back, punctual requests, a window that fits an `int64` with a second
  -- more, a codec that round-trips every state and the limit `m`: of a run of requests through `Allow` over the in-memory store, from a store
  -- without a state for the key, no window of the configured length, wherever it ends, holds more
  -- than `m` that were let through.
  pub allow-WithinLimit :
      (m n : ℕ) (w : World F)
      → sw.max_requests ≡ pos m
      → NeverBack w.clock
      → ((t : ℤ) → value_at w (state_key key) t ≡ "")
      → Punctual float json sw key n w
      → let lim = sliding_window_limiter (memory_store float) world_clock json sw in
        WithinLimit sw m
          (let_through (starts world_clock lim key n w) (outcomes world_clock lim key n w))
  allow-WithinLimit m n w limit steady unset soon =
      let ts =
        starts world_clock (sliding_window_limiter (memory_store float) world_clock json sw) key n
          w in
      rw (outcomes-decide float json sw key codec fits n w steady unset soon, let_through-decided)
        (decide-WithinLimit sw m (next_time w) ts limit
          (starts-InOrder n (next_time w) w steady (omega arith) soon))

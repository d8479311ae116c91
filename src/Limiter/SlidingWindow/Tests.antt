-- ===== src/Limiter/SlidingWindow/Tests.antt =====
-- Runs of the sliding window: two requests in ten seconds.
use throttle.Prelude.{◌<◌, ℕ, suc, ◌≡◌, refl, true, false, List, [], ◌∷◌, arith}
use throttle.Int.{◌+ℤ◌, ℤ, pos, ◌-ℤ◌}
use throttle.Int64.{sub64, add64, wrap64}
use throttle.Time.{unix_nano}
use throttle.Float64.Whole.{whole_numbers}
use throttle.Codec.{Codec, IsCodecAt}
use throttle.Dict
use throttle.Memory.{World, world_clock, memory_store, new_memory_store, get, set}
use throttle.Memory.Values.{value_at, next_time}
use throttle.Limiter.{RateLimiter}
use throttle.Limiter.SlidingWindow.OnMemory.{read_once}
use throttle.Limiter.SlidingWindow.Mirror.{IsPunctual, Punctual, after}
use throttle.Limiter.SlidingWindow.Runs.{outcomes-decide}
use throttle.Limiter.SlidingWindow.Enforced.{allow-WithinLimit}
use throttle.Codec.Marks.{marks_codec, marks-IsCodecAt}
use throttle.Memory.Readings.{NeverBack}
use throttle.Limiter.Requests.{outcomes, starts, let_through, decided}
use throttle.Limiter.Decisions.{granted}
use throttle.Limiter.SlidingWindow.{
  SlidingWindow, SlidingWindowState, step, load, allow, state_key, sliding_window_limiter,
}
use throttle.Limiter.SlidingWindow.Quota.{
  decide, reference, InOrder, WithinLimit, decide-reference, decide-WithinLimit,
}

abbrev two_in_ten : SlidingWindow
two_in_ten = record { max_requests = pos 2; window_duration = pos 10 }

abbrev times : List ℤ
times = pos 1 ∷ pos 5 ∷ pos 9 ∷ pos 11 ∷ pos 12 ∷ []

times-InOrder : InOrder two_in_ten (pos 1) times
unfolding ◌-ℤ◌
times-InOrder = ground arith

decide_test : decide two_in_ten [] times ≡ true ∷ true ∷ false ∷ true ∷ false ∷ []
unfolding decide step sub64 wrap64 ◌-ℤ◌
decide_test = refl

decide-reference_example : decide two_in_ten [] times ≡ reference two_in_ten [] times
decide-reference_example = decide-reference two_in_ten (pos 1) times times-InOrder

decide-WithinLimit_example : WithinLimit two_in_ten 2 (granted times (decide two_in_ten [] times))
decide-WithinLimit_example = decide-WithinLimit two_in_ten 2 (pos 1) times refl times-InOrder

-- An empty store, and a clock that counts nanoseconds.
abbrev empty_world : World ℤ
empty_world = record { clock = λ n. pos n; readings = 5; memory = new_memory_store }

abbrev states : Codec SlidingWindowState
states = marks_codec (λ s. s.timestamps) (λ ts. record { timestamps = ts })

states-IsCodecAt : (s : SlidingWindowState) → IsCodecAt states s
states-IsCodecAt =
    marks-IsCodecAt (λ s. s.timestamps) (λ ts. record { timestamps = ts }) (λ s. refl)

abbrev limiter : RateLimiter (World ℤ)
limiter = sliding_window_limiter (memory_store whole_numbers) world_clock states two_in_ten

steady : NeverBack empty_world.clock
steady n = omega arith

nothing_stored : (t : ℤ) → value_at empty_world (state_key "alice") t ≡ ""
unfolding value_at Dict.lookup
nothing_stored t = refl

abbrev after_one : World ℤ
after_one = after whole_numbers states two_in_ten "alice" empty_world

abbrev after_two : World ℤ
after_two = after whole_numbers states two_in_ten "alice" after_one

IsPunctual-clock :
    (w : World ℤ) (n : ℕ)
    → n < 1000
    → next_time w ≡ pos n
    → next_time (read_once whole_numbers states two_in_ten "alice" w) ≡ pos (suc n)
    → IsPunctual whole_numbers states two_in_ten "alice" w
unfolding ◌+ℤ◌ ◌-ℤ◌
IsPunctual-clock w n small now later = record {
  now_fits = rw now (omega arith);
  start_fits = rw now (ground arith);
  looks_up_soon = rw (now, later) (ground arith);
}

punctual : Punctual whole_numbers states two_in_ten "alice" 3 empty_world
unfolding allow get set step sub64 add64 wrap64 unix_nano load value_at ◌+ℤ◌ ◌-ℤ◌ Dict.lookup
    Dict.insert state_key
punctual = (
  IsPunctual-clock empty_world 5 (omega arith) refl refl,
  (
    IsPunctual-clock after_one 7 (omega arith) refl refl,
    (IsPunctual-clock after_two 10 (omega arith) refl refl, tt),
  ),
)

outcomes_test :
    outcomes world_clock limiter "alice" 3 empty_world ≡ decided (true ∷ true ∷ false ∷ [])
unfolding outcomes allow step sub64 add64 wrap64 unix_nano load get Dict.lookup set Dict.insert ◌+ℤ◌
    ◌-ℤ◌ state_key
outcomes_test = refl

outcomes-decide_example :
    outcomes world_clock limiter "alice" 3 empty_world
    ≡ decided (decide two_in_ten [] (starts world_clock limiter "alice" 3 empty_world))
unfolding ◌+ℤ◌
outcomes-decide_example =
    outcomes-decide whole_numbers states two_in_ten "alice" states-IsCodecAt (ground arith) 3
      empty_world steady nothing_stored punctual

allow-WithinLimit_example : WithinLimit two_in_ten 2 (
    let_through
      (starts world_clock limiter "alice" 3 empty_world)
      (outcomes world_clock limiter "alice" 3 empty_world))
unfolding ◌+ℤ◌
allow-WithinLimit_example =
    allow-WithinLimit whole_numbers states two_in_ten "alice" states-IsCodecAt (ground arith) 2 3
      empty_world refl steady nothing_stored punctual

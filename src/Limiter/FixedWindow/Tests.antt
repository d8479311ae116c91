-- ===== src/Limiter/FixedWindow/Tests.antt =====
-- Runs of the fixed window: three requests in ten seconds.
use throttle.Prelude.{
  ◌+◌, ◌-◌, List, ◌<◌, ℕ, suc, ◌≡◌, refl, true, false, [], ◌∷◌, ◌++◌, arith, replicate, ◌≤◌,
}
use throttle.Int.{ℤ, pos, ◌+ℤ◌, ◌-ℤ◌}
use throttle.Int64.{add64, wrap64}
use throttle.Time.{unix_nano, time_sub, saturate}
use throttle.Float64.Whole.{whole_numbers}
use throttle.Codec.{Codec, IsCodecAt}
use throttle.Dict
use throttle.Memory.{World, world_clock, memory_store, new_memory_store, get, set}
use throttle.Memory.Values.{value_at, next_time}
use throttle.Limiter.{RateLimiter, verdict}
use throttle.Exec.{returns}
use throttle.Limiter.FixedWindow.OnMemory.{read_once, looked_up}
use throttle.Limiter.FixedWindow.Mirror.{IsPunctual, Punctual, after}
use throttle.Limiter.FixedWindow.Runs.{outcomes-decide_windows}
use throttle.Limiter.FixedWindow.Clients.{waiting, answered, Reaches}
use throttle.Limiter.FixedWindow.Race.{all_admitted}
use throttle.Limiter.FixedWindow.Enforced.{allow-first_granted}
use throttle.Codec.Marks.{marks_codec, marks-IsCodecAt}
use throttle.Memory.Readings.{NeverBack}
use throttle.Limiter.Requests.{outcomes, starts, decided}
use throttle.Limiter.Decisions.{allowed_count, first_granted}
use throttle.Limiter.FixedWindow.{
  FixedWindow, FixedWindowState, fresh, roll, admit, load, allow, state_key, expiration_after,
  fixed_window_limiter,
}
use throttle.Limiter.FixedWindow.Quota.{decide, counted, decide_span, decide_boundary}

abbrev three_in_ten : FixedWindow
three_in_ten = record { max_requests = pos 3; window_duration = pos 10 }

-- One request was counted before, and five follow.
decide_span_example :
    allowed_count
      (decide three_in_ten (counted 1 (pos 95)) (pos 92 ∷ pos 94 ∷ pos 95 ∷ pos 96 ∷ pos 101 ∷ []))
    ≤ (3 - 1) + 3
unfolding ◌+ℤ◌
decide_span_example =
    decide_span three_in_ten 3 refl (omega arith) (pos 92) (pos 95) 1
      (pos 92 ∷ pos 94 ∷ pos 95 ∷ pos 96 ∷ pos 101 ∷ []) (omega arith) (ground arith)

decide_boundary_example :
    decide three_in_ten
      (fresh three_in_ten (pos 90))
      (pos 90 ∷ (replicate 2 (pos 99) ++ replicate 3 (pos 100)))
    ≡ true ∷ (replicate 2 true ++ replicate 3 true)
unfolding ◌+ℤ◌
decide_boundary_example =
    decide_boundary three_in_ten 3 refl (omega arith) (pos 90) (pos 99) (omega arith) (omega arith)
      (omega arith) (omega arith, omega arith) (omega arith)

abbrev two_in_ten : FixedWindow
two_in_ten = record { max_requests = pos 2; window_duration = pos 10 }

-- An empty store, and a clock that counts nanoseconds.
abbrev empty_world : World ℤ
empty_world = record { clock = λ n. pos n; readings = 5; memory = new_memory_store }

abbrev numbers : FixedWindowState → List ℤ
numbers s = s.count ∷ s.window_end ∷ []

abbrev from_numbers : List ℤ → FixedWindowState
from_numbers (count ∷ window_end ∷ _) = record { count = count; window_end = window_end }
from_numbers _ = record { count = pos 0; window_end = pos 0 }

abbrev states : Codec FixedWindowState
states = marks_codec numbers from_numbers

states-IsCodecAt : (s : FixedWindowState) → IsCodecAt states s
states-IsCodecAt = marks-IsCodecAt numbers from_numbers (λ s. refl)

abbrev limiter : RateLimiter (World ℤ)
limiter = fixed_window_limiter (memory_store whole_numbers) world_clock states two_in_ten

steady : NeverBack empty_world.clock
steady n = omega arith

nothing_stored : (t : ℤ) → value_at empty_world (state_key "alice") t ≡ ""
unfolding value_at Dict.lookup
nothing_stored t = refl

abbrev after_one : World ℤ
after_one = after whole_numbers states two_in_ten "alice" empty_world

abbrev after_two : World ℤ
after_two = after whole_numbers states two_in_ten "alice" after_one

IsPunctual-clock :
    (w : World ℤ) (n m : ℕ)
    → n < 1000
    → m < 1000
    → next_time w ≡ pos n
    → next_time (read_once whole_numbers states two_in_ten "alice" w) ≡ pos (suc n)
    → next_time (looked_up whole_numbers states two_in_ten "alice" w) ≡ pos m
    → IsPunctual whole_numbers states two_in_ten "alice" w
unfolding ◌+ℤ◌
IsPunctual-clock w n m small small' now later last = record {
  now_nonneg = rw now (omega arith);
  fits = rw last (ground arith);
  looks_up_soon = rw (now, later) (ground arith);
}

punctual : Punctual whole_numbers states two_in_ten "alice" 3 empty_world
unfolding allow get set admit load roll add64 wrap64 unix_nano ◌+ℤ◌ ◌-ℤ◌ Dict.lookup Dict.insert
    state_key expiration_after time_sub saturate
punctual = (
  IsPunctual-clock empty_world 5 6 (omega arith) (omega arith) refl refl refl,
  (
    IsPunctual-clock after_one 8 10 (omega arith) (omega arith) refl refl refl,
    (IsPunctual-clock after_two 12 14 (omega arith) (omega arith) refl refl refl, tt),
  ),
)

outcomes_test :
    outcomes world_clock limiter "alice" 3 empty_world ≡ decided (true ∷ true ∷ false ∷ [])
unfolding outcomes allow get set admit load roll add64 wrap64 unix_nano ◌+ℤ◌ ◌-ℤ◌ Dict.lookup
    Dict.insert state_key expiration_after time_sub saturate
outcomes_test = refl

outcomes-decide_windows_example :
    outcomes world_clock limiter "alice" 3 empty_world
    ≡ decided (
        decide two_in_ten
          (counted 0 (next_time empty_world))
          (starts world_clock limiter "alice" 3 empty_world))
outcomes-decide_windows_example =
    outcomes-decide_windows whole_numbers states two_in_ten "alice" states-IsCodecAt (omega arith) 3
      empty_world steady (omega arith) nothing_stored punctual

allow-first_granted_example :
    outcomes world_clock limiter "alice" 3 empty_world
    ≡ decided (first_granted 2 (starts world_clock limiter "alice" 3 empty_world))
unfolding starts allow get set admit load roll add64 wrap64 unix_nano ◌+ℤ◌ ◌-ℤ◌ Dict.lookup
    Dict.insert state_key expiration_after time_sub saturate
allow-first_granted_example =
    allow-first_granted whole_numbers states two_in_ten "alice" states-IsCodecAt (omega arith) 2 3
      empty_world refl (omega arith) steady (omega arith) nothing_stored punctual (ground arith)

-- Three requests at once, though the limit is two.
all_admitted_example :
    (w' : World ℤ) × Reaches whole_numbers states two_in_ten "alice"
      (replicate 3 waiting)
      empty_world
      (replicate 3 (answered (returns (verdict true))))
      w'
all_admitted_example =
    all_admitted whole_numbers states two_in_ten "alice" states-IsCodecAt (omega arith) 3
      empty_world nothing_stored

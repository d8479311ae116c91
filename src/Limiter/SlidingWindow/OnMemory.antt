-- ===== src/Limiter/SlidingWindow/OnMemory.antt =====
-- `Allow` of sliding_window.go over the in-memory store of internal/storage/memory.go.
use throttle.Prelude.{
  suc, String, ◌≡◌, refl, Bool, false, List, [], arith, ◌==◌, eq_iff, eq_refl, if◌then◌else◌,
}
use throttle.Int.{ℤ, ◌+ℤ◌}
use throttle.Int64.{add64}
use throttle.Exec.{returns}
use throttle.Time.{unix_nano, second}
use throttle.Float64.{Float64}
use throttle.Codec.{Codec, IsCodecAt}
use throttle.Memory.{World, world_clock, memory_store, is_expired, get, set}
use throttle.Memory.Values.{value_at, value_at-set, get_view, next_time}
use throttle.Limiter.{verdict}
use throttle.Limiter.SlidingWindow.{SlidingWindow, SlidingWindowState, load, step, state_key, allow}

module _ {F : Type 0} (float : Float64 F) (json : Codec SlidingWindowState) (sw : SlidingWindow)
    (key : String) (w : World F) where
  -- The world after the first reading of the clock.
  abbrev pub read_once : World F
  read_once = record w { readings = suc w.readings }

  -- The timestamps that the request finds.
  abbrev pub stored : List ℤ
  stored = load json (value_at read_once (state_key key) (next_time read_once))

  abbrev pub decision : Bool × List ℤ
  decision = step sw (unix_nano (next_time w)) stored

  -- The world that `Get` leaves.
  abbrev pub looked_up : World F
  looked_up = (get (state_key key) read_once).1

  abbrev pub time_to_live : ℤ
  time_to_live = add64 sw.window_duration second

  module _ (law : IsCodecAt json (record { timestamps = decision.1 })) where
    pub allow_run :
        allow (memory_store float) world_clock json sw key w
        ≡ (returns (verdict decision.0), (set (state_key key) law.text time_to_live looked_up).1)
    unfolding allow set
    allow_run = ground (arith, (get_view read_once (state_key key)).0, law.marshals)

    looked_up_value : (j : String) (t : ℤ) → value_at looked_up j t ≡ value_at w j t
    unfolding value_at
    looked_up_value j t = rw ((get_view read_once (state_key key)).1)

    load_text : load json law.text ≡ decision.1
    unfolding load
    load_text = ground (arith, law.unmarshals, law.nonempty, eq_iff law.text "")

    load_nothing : load json "" ≡ []
    unfolding load
    load_nothing = refl

    -- Where the codec round-trips the new state, `Allow` answers as one step of the algorithm on the
    -- timestamps it finds. The next request finds the new timestamps, or none once the window and a
    -- second have passed since they were stored, and the values of all other keys are unchanged.
    pub allow-step :
        let after = (allow (memory_store float) world_clock json sw key w).1 in
        ((allow (memory_store float) world_clock json sw key w).0 ≡ returns (verdict decision.0))
        × ((t : ℤ)
            → load json (value_at after (state_key key) t)
              ≡ (if is_expired (next_time looked_up +ℤ time_to_live) t then [] else decision.1))
        × ((j : String) (t : ℤ)
            → (state_key key == j) ≡ false
            → value_at after j t ≡ value_at w j t)
    allow-step = rw allow_run (
      refl,
      λ t.
          rw
            (
              value_at-set looked_up (state_key key) (state_key key) law.text time_to_live t,
              eq_refl (state_key key),
            )
            (ground (arith, load_text, load_nothing)),
      λ j t other.
          rw (value_at-set looked_up (state_key key) j law.text time_to_live t, other)
            (looked_up_value j t),
    )

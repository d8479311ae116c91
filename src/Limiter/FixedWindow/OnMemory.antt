-- ===== src/Limiter/FixedWindow/OnMemory.antt =====
-- `Allow` of fixed_window.go over the in-memory store of internal/storage/memory.go.
use throttle.Prelude.{
  suc, String, ◌≡◌, refl, Bool, false, arith, ◌==◌, eq_iff, eq_refl, if◌then◌else◌,
}
use throttle.Int.{ℤ, ◌+ℤ◌}
use throttle.Exec.{returns}
use throttle.Time.{unix_nano, time_sub}
use throttle.Float64.{Float64}
use throttle.Codec.{Codec, IsCodecAt}
use throttle.Memory.{World, world_clock, memory_store, is_expired, get, set}
use throttle.Memory.Values.{value_at, value_at-set, get_view, next_time}
use throttle.Limiter.{verdict}
use throttle.Limiter.FixedWindow.{
  FixedWindow, FixedWindowState, fresh, roll, load, admit, expiration_after, state_key, allow,
}

module _ {F : Type 0} (float : Float64 F) (json : Codec FixedWindowState) (fw : FixedWindow)
    (key : String) (w : World F) where
  -- The world after the first reading of the clock.
  abbrev pub read_once : World F
  read_once = record w { readings = suc w.readings }

  -- The decision on the state that the request finds.
  abbrev pub decision : Bool × FixedWindowState
  decision = admit fw (
      load json fw (unix_nano (next_time w))
        (value_at read_once (state_key key) (next_time read_once)))

  -- The world that `Get` leaves.
  abbrev pub looked_up : World F
  looked_up = (get (state_key key) read_once).1

  -- `time.Until` reads the clock once more.
  abbrev pub read_again : World F
  read_again = record looked_up { readings = suc looked_up.readings }

  abbrev pub time_to_live : ℤ
  time_to_live = expiration_after fw (time_sub decision.1.window_end (next_time looked_up))

  module _ (law : IsCodecAt json decision.1) where
    pub allow_run :
        allow (memory_store float) world_clock json fw key w
        ≡ (returns (verdict decision.0), (set (state_key key) law.text time_to_live read_again).1)
    unfolding allow set
    allow_run = ground (arith, (get_view read_once (state_key key)).0, law.marshals)

    read_again_value : (j : String) (t : ℤ) → value_at read_again j t ≡ value_at w j t
    unfolding value_at
    read_again_value j t = rw ((get_view read_once (state_key key)).1)

    load_text : (now : ℤ) → load json fw now law.text ≡ roll fw now decision.1
    unfolding load
    load_text now = ground (arith, law.unmarshals, law.nonempty, eq_iff law.text "")

    load_nothing : (now : ℤ) → load json fw now "" ≡ fresh fw now
    unfolding load
    load_nothing now = refl

    -- Where the codec round-trips the new state, `Allow` answers with the decision on the state it
    -- finds. A request at the time `now` that reads the store at the time `t` then finds the new
    -- state, rolled over to a new window if that has begun, or a fresh one once the stored state has
    -- expired; the values of all other keys are unchanged.
    pub allow-admit :
        let after = (allow (memory_store float) world_clock json fw key w).1 in
        ((allow (memory_store float) world_clock json fw key w).0 ≡ returns (verdict decision.0))
        × ((now t : ℤ)
            → load json fw now (value_at after (state_key key) t) ≡ (
                if is_expired (next_time read_again +ℤ time_to_live) t
                then fresh fw now
                else roll fw now decision.1))
        × ((j : String) (t : ℤ)
            → (state_key key == j) ≡ false
            → value_at after j t ≡ value_at w j t)
    allow-admit = rw allow_run (
      refl,
      λ now t.
          rw
            (
              value_at-set read_again (state_key key) (state_key key) law.text time_to_live t,
              eq_refl (state_key key),
            )
            (ground (arith, load_text now, load_nothing now)),
      λ j t other.
          rw (value_at-set read_again (state_key key) j law.text time_to_live t, other)
            (read_again_value j t),
    )

-- ===== src/Limiter/FixedWindow/Race.antt =====
-- Requests that all read the state before one of them writes it.
use throttle.Prelude.{
  All, length, ℕ, zero, suc, String, ◌≡◌, refl, ap, ◌∙◌, true, List, [], ◌∷◌, arith, replicate,
}
use throttle.Int.{ℤ, pos, ◌<ℤ◌, lt→ltb_ℤ}
use throttle.Exec.{ok, returns}
use throttle.Time.{unix_nano}
use throttle.Float64.{Float64}
use throttle.Codec.{Codec, IsCodecAt}
use throttle.Memory.{World, get, set}
use throttle.Memory.Values.{value_at, get_view, next_time}
use throttle.Limiter.{verdict}
use throttle.Limiter.FixedWindow.{FixedWindow, FixedWindowState, fresh, admit, load, state_key}
use throttle.Limiter.FixedWindow.Clients.{
  Client, waiting, holding, answered, begin, finish, advance, Reaches, Reaches-trans, sweep,
  sweep-Reaches,
}

module _ {F : Type 0} (float : Float64 F) (json : Codec FixedWindowState) (fw : FixedWindow)
    (key : String) where
  abbrev IsUnset : World F → Type 0
  IsUnset w = (t : ℤ) → value_at w (state_key key) t ≡ ""

  abbrev read_once : World F → World F
  read_once w = record w { readings = suc w.readings }

  begin_lem :
      (w : World F)
      → begin float json fw key w ≡ (
        returns
            (unix_nano (next_time w), ok (value_at w (state_key key) (next_time (read_once w)))),
        (get (state_key key) (read_once w)).1,
      )
  unfolding begin value_at
  begin_lem w = rw ((get_view (read_once w) (state_key key)).0) refl

  begin-IsUnset : (w : World F) → IsUnset w → IsUnset (advance float json fw key waiting w).1
  unfolding value_at
  begin-IsUnset w unset t = rw (begin_lem w, (get_view (read_once w) (state_key key)).1) (unset t)

  abbrev tries : ℕ → List Client
  tries n = replicate n waiting

  -- A request that has found no state.
  abbrev HoldsNothing : Client → Type 0
  HoldsNothing c = (now : ℤ) × (c ≡ holding now (ok ""))

  -- All requests begin.
  sweep_begins :
      (n : ℕ) (w : World F)
      → IsUnset w
      → All HoldsNothing (sweep float json fw key (replicate n waiting) w).0
  sweep_begins zero w unset = tt
  sweep_begins (suc n) w unset = (
    (unix_nano (next_time w), rw (begin_lem w, unset (next_time (read_once w))) refl),
    sweep_begins n (advance float json fw key waiting w).1 (begin-IsUnset w unset),
  )

  length-sweep :
      (n : ℕ) (w : World F) → length (sweep float json fw key (replicate n waiting) w).0 ≡ n
  length-sweep zero w = refl
  length-sweep (suc n) w = ap suc (length-sweep n (advance float json fw key waiting w).1)

  module _ (codec : (s : FixedWindowState) → IsCodecAt json s)
      (room : pos 0 <ℤ fw.max_requests) where
    finish_unset :
        (now : ℤ) (w : World F)
        → (advance float json fw key (holding now (ok "")) w).0 ≡ answered (returns (verdict true))
    unfolding finish set admit load
    finish_unset now w =
        ground (
          arith,
          (codec (admit fw (fresh fw now)).1).marshals,
          lt→ltb_ℤ (pos 0) fw.max_requests room,
        )

    -- All requests that have found no state end.
    sweep_ends :
        (cs : List Client) (w : World F)
        → All HoldsNothing cs
        → (sweep float json fw key cs w).0
          ≡ replicate (length cs) (answered (returns (verdict true)))
    sweep_ends [] w h = refl
    sweep_ends (c ∷ cs) w ((now, e), h) =
        rw (e, finish_unset now w)
          (ap (λ rest. answered (returns (verdict true)) ∷ rest) (sweep_ends cs _ h))

    -- For a codec that round-trips every state and a limit of at least one request: from a store
    -- without a state for the key, any number of concurrent requests can all be let through, whatever
    -- the limit. They all read the state before one of them writes it.
    pub all_admitted :
        (n : ℕ) (w : World F)
        → IsUnset w
        → (w' : World F) × Reaches float json fw key
            (replicate n waiting)
            w
            (replicate n (answered (returns (verdict true))))
            w'
    all_admitted n w unset =
        let (cs, w') = sweep float json fw key (replicate n waiting) w in
        let ends = sweep_ends cs w' (sweep_begins n w unset) in
        (
          (sweep float json fw key cs w').1,
          rw
              (← (
                ends
                ∙ ap (λ k. replicate k (answered (returns (verdict true)))) (length-sweep n w)))
              (Reaches-trans float json fw key
                (sweep-Reaches float json fw key (replicate n waiting) w)
                (sweep-Reaches float json fw key cs w')),
        )

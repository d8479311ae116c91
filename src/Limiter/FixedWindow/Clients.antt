-- ===== src/Limiter/FixedWindow/Clients.antt =====
-- Concurrent requests for one key, through `Allow` of fixed_window.go over the in-memory store. The
-- store's mutex is held for one method at a time, so other requests can come between the `Get` and
-- the `Set` of a request.
use throttle.Prelude.{suc, String, ◌≡◌, refl, List, [], ◌∷◌, inl, inr}
use throttle.Int.{ℤ}
use throttle.Exec.{Result, Outcome, returns, panics, Outcome-cases, Exec, pure, or_return, ◌>>=◌}
use throttle.Time.{time_now, unix_nano, time_sub}
use throttle.Float64.{Float64}
use throttle.Codec.{Codec}
use throttle.Memory.{World, world_clock, memory_store, get}
use throttle.Limiter.{Verdict, verdict, fail_open}
use throttle.Limiter.FixedWindow.{
  FixedWindow, FixedWindowState, admit, load, expiration_after, state_key, allow,
}

-- A request: not begun, between its `Get` and its `Set`, or answered.
pub data Client : Type 0 where
  waiting : Client
  holding : ℤ → Result String → Client
  answered : Outcome Verdict → Client

module _ {F : Type 0} (float : Float64 F) (json : Codec FixedWindowState) (fw : FixedWindow)
    (key : String) where
  -- `Allow` up to its `Get`: the time that it read, and the answer.
  unfoldable pub begin : Exec (World F) (ℤ × Result String)
  begin = do
    t ← time_now world_clock
    found ← (memory_store float).get (state_key key)
    pure (unix_nano t, found)

  -- The rest of `Allow`, up to and with its `Set`.
  unfoldable pub finish : ℤ → Result String → Exec (World F) Verdict
  finish now =
      or_return (λ e. pure (fail_open e))
        (λ state_str. do
          let (allowed, state) = admit fw (load json fw now state_str)
          or_return (λ e. pure (fail_open e))
              (λ state_json. do
                t' ← time_now world_clock
                let expiration = expiration_after fw (time_sub state.window_end t')
                done ← (memory_store float).set (state_key key) state_json expiration
                or_return (λ e. pure (fail_open e)) (λ _. pure (verdict allowed)) done)
              (json.marshal state))

  -- The two parts are the whole.
  pub allow-parts :
      (w : World F)
      → allow (memory_store float) world_clock json fw key w
        ≡ (begin >>= λ (now, found). finish now found) w
  unfolding allow begin finish
  allow-parts w =
      elim (Outcome-cases
        (get {F = F} (state_key key) (record w { readings = suc w.readings })).0) [
          | inl e ↦ rw e refl
          | inr (found, e) ↦ rw e refl
        ]

  abbrev begun : Outcome (ℤ × Result String) → Client
  begun (returns (now, found)) = holding now found
  begun panics = answered panics

  -- What a request does when its turn comes.
  abbrev pub advance : Client → World F → Client × World F
  advance waiting w = let (o, w') = begin w in (begun o, w')
  advance (holding now found) w = let (o, w') = finish now found w in (answered o, w')
  advance (answered o) w = (answered o, w)

  -- Any one of the requests takes its turn.
  pub data Step : List Client → World F → List Client → World F → Type 0 where
    here :
        (c : Client) (cs : List Client) (w : World F)
        → Step (c ∷ cs) w ((advance c w).0 ∷ cs) (advance c w).1
    there :
        (c : Client) {cs cs' : List Client} {w w' : World F}
        → Step cs w cs' w'
        → Step (c ∷ cs) w (c ∷ cs') w'

  pub data Reaches : List Client → World F → List Client → World F → Type 0 where
    finished : (cs : List Client) (w : World F) → Reaches cs w cs w
    turn :
        {cs cs' cs'' : List Client} {w w' w'' : World F}
        → Step cs w cs' w'
        → Reaches cs' w' cs'' w''
        → Reaches cs w cs'' w''

  pub Reaches-there :
      (c : Client) {cs cs' : List Client} {w w' : World F}
      → Reaches cs w cs' w'
      → Reaches (c ∷ cs) w (c ∷ cs') w'
  Reaches-there c (finished cs w) = finished (c ∷ cs) w
  Reaches-there c (turn s r) = turn (there c s) (Reaches-there c r)

  pub Reaches-trans :
      {cs cs' cs'' : List Client} {w w' w'' : World F}
      → Reaches cs w cs' w'
      → Reaches cs' w' cs'' w''
      → Reaches cs w cs'' w''
  Reaches-trans (finished cs w) r = r
  Reaches-trans (turn s q) r = turn s (Reaches-trans q r)

  -- Each request takes one turn, in order.
  abbrev pub sweep : List Client → World F → List Client × World F
  sweep [] w = ([], w)
  sweep (c ∷ cs) w = let (c', w') = advance c w in let (cs', w'') = sweep cs w' in (c' ∷ cs', w'')

  pub sweep-Reaches : (cs : List Client) (w : World F) → Reaches cs w (sweep cs w).0 (sweep cs w).1
  sweep-Reaches [] w = finished [] w
  sweep-Reaches (c ∷ cs) w =
      turn (here c cs w) (Reaches-there (advance c w).0 (sweep-Reaches cs (advance c w).1))

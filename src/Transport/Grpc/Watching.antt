-- ===== src/Transport/Grpc/Watching.antt =====
-- What a client of `Watch` is sent.
use throttle.Prelude.{
  refl, ℕ, zero, suc, replicate, ◌++◌, some, ◌≡◌, false, List, [], ◌∷◌, arith, Bool-cases, inl, inr,
}
use throttle.Exec.{Error, err, Result, ok, returns, Exec, Outcome-cases, continue, or_return, pure}
use throttle.Time.{Clock}
use throttle.Storage.{Store}
use throttle.Service.Health.{ping}
use throttle.Transport.Grpc.{
  ServingStatus, serving, not_serving, same_status, Event, tick, cancelled, current_status,
  watch_loop, watch,
}

-- No two neighbours are the same.
abbrev pub Alternates : List ServingStatus → Type 0
Alternates [] = Unit {0}
Alternates (a ∷ []) = Unit {0}
Alternates (a ∷ b ∷ rest) = (same_status a b ≡ false) × Alternates (b ∷ rest)

-- A stream that can be written to: `sent w` is what the client was sent so far, the newest first.
pub record IsStream {F W : Type 0} (store : Store F W)
    (send : ServingStatus → Exec W (Result (Unit {0}))) : Type 0 where
  pub sent : W → List ServingStatus
  pub ping_sent : (w : W) → sent (store.ping w).1 ≡ sent w
  pub send_answer : (s : ServingStatus) (w : W) → (send s w).0 ≡ returns (ok tt)
  pub send_sent : (s : ServingStatus) (w : W) → sent (send s w).1 ≡ s ∷ sent w

module _ {F W : Type 0} (store : Store F W) (clock : Clock W)
    (send : ServingStatus → Exec W (Result (Unit {0}))) (stream : IsStream store send) where
  current_status_world : (w : W) → (current_status store clock w).1 ≡ (store.ping w).1
  unfolding current_status ping
  current_status_world w = ground arith

  polled_sent : (w : W) → stream.sent (current_status store clock w).1 ≡ stream.sent w
  polled_sent w = rw (current_status_world w) (stream.ping_sent w)

  -- What the client was sent has no repetition and ends with `status`.
  abbrev IsUpToDate : ServingStatus → W → Type 0
  IsUpToDate status w =
      (rest : List ServingStatus) × (stream.sent w ≡ status ∷ rest) × Alternates (status ∷ rest)

  IsUpToDate-Alternates :
      (status : ServingStatus) (w : W) → IsUpToDate status w → Alternates (stream.sent w)
  IsUpToDate-Alternates status w (rest, e, h) = rw e h

  polled-IsUpToDate :
      (status : ServingStatus) (w : W)
      → IsUpToDate status w
      → IsUpToDate status (current_status store clock w).1
  polled-IsUpToDate status w (rest, e, h) = (rest, rw (polled_sent w, e), h)

  send-IsUpToDate :
      (status next : ServingStatus) (w : W)
      → same_status next status ≡ false
      → IsUpToDate status w
      → IsUpToDate next (send next w).1
  send-IsUpToDate status next w differs (rest, e, h) =
      (status ∷ rest, rw (stream.send_sent next w, e), (differs, h))

  watch_loop-Alternates :
      (status : ServingStatus) (events : List Event) (w : W)
      → IsUpToDate status w
      → Alternates (stream.sent (watch_loop store clock send status events w).1)
  unfolding watch_loop
  watch_loop-Alternates status [] w h = IsUpToDate-Alternates status w h
  watch_loop-Alternates status (cancelled e ∷ events) w h = IsUpToDate-Alternates status w h
  watch_loop-Alternates status (tick ∷ events) w h =
      let w' = (current_status store clock w).1 in
      let kept = polled-IsUpToDate status w h in
      elim (Outcome-cases (current_status store clock w).0) [
        | inl panicked ↦ rw panicked (IsUpToDate-Alternates status w' kept)
        | inr (next, answered) ↦ elim (Bool-cases (same_status next status)) [
          | inl same ↦ rw (answered, continue, same) (watch_loop-Alternates status events w' kept)
          | inr differs ↦
              rw (answered, continue, differs, stream.send_answer next w')
                (watch_loop-Alternates next events (send next w').1
                  (send-IsUpToDate status next w' differs kept))
        ]
      ]

  -- Over a stream that can be written to, that a ping does not write to, and to which nothing was sent
  -- before: whatever the events, `Watch` never sends the same status twice in a row.
  pub watch-Alternates :
      (events : List Event) (w : W)
      → stream.sent w ≡ []
      → Alternates (stream.sent (watch store clock send events w).1)
  unfolding watch
  watch-Alternates events w nothing =
      let w' = (current_status store clock w).1 in
      elim (Outcome-cases (current_status store clock w).0) [
        | inl panicked ↦ rw (panicked, polled_sent w, nothing) tt
        | inr (status, answered) ↦
            rw (answered, stream.send_answer status w')
              (watch_loop-Alternates status events (send status w').1
                ([], rw (stream.send_sent status w', polled_sent w, nothing), tt))
      ]

  -- A ping answers, whatever it answers.
  module _ (answers : (w : W) → (r : Result (Unit {0})) × ((store.ping w).0 ≡ returns r)) where
    polled :
        (w : W) → (status : ServingStatus) × ((current_status store clock w).0 ≡ returns status)
    unfolding current_status ping
    polled w = let (r, e) = answers w in rw e (of_answer r)
      where
        of_answer :
            (r : Result (Unit {0}))
            → (status : ServingStatus) × ((continue
                  (returns r)
                  (or_return (λ _. pure not_serving) (λ _. pure serving))
                  (store.ping w).1).0
                ≡ returns status)
        of_answer (ok _) = (serving, refl)
        of_answer (err _) = (not_serving, refl)

    watch_loop_ends :
        (n : ℕ) (status : ServingStatus) (e : Error) (rest : List Event) (w : W)
        → (watch_loop store clock send status (replicate n tick ++ cancelled e ∷ rest) w).0
          ≡ returns (some e)
    unfolding watch_loop
    watch_loop_ends zero status e rest w = refl
    watch_loop_ends (suc n) status e rest w =
        let w' = (current_status store clock w).1 in
        let (next, answered) = polled w in
        elim (Bool-cases (same_status next status)) [
          | inl same ↦ rw (answered, continue, same) (watch_loop_ends n status e rest w')
          | inr differs ↦
              rw (answered, continue, differs, stream.send_answer next w')
                (watch_loop_ends n next e rest (send next w').1)
        ]

    -- Over a stream that can be written to, where a ping answers, be it with an error, `Watch` returns
    -- the error of the client's context as soon as that ends, after any number of ticks.
    pub watch_ends :
        (n : ℕ) (e : Error) (rest : List Event) (w : W)
        → (watch store clock send (replicate n tick ++ cancelled e ∷ rest) w).0 ≡ returns (some e)
    unfolding watch
    watch_ends n e rest w =
        let w' = (current_status store clock w).1 in
        let (status, answered) = polled w in
        rw (answered, continue, stream.send_answer status w')
          (watch_loop_ends n status e rest (send status w').1)

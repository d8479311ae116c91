-- ===== src/Transport/Grpc/Tests.antt =====
-- Runs of the gRPC services.
use throttle.Prelude.{replicate, ◌++◌, some, ◌≡◌, refl, List, [], ◌∷◌}
use throttle.Int.{ℤ, pos}
use throttle.Exec.{message, Result, ok, err, returns, Exec}
use throttle.Time.{Clock}
use throttle.Storage.{Store}
use throttle.Transport.Grpc.{
  ServingStatus, serving, not_serving, Event, tick, cancelled, watch, current_status, watch_loop,
}
use throttle.Transport.Grpc.Watching.{Alternates, IsStream, watch-Alternates, watch_ends}

-- A store that answers one ping after the other, beside what the client was sent.
record Line : Type 0 where
  answers : List (Result (Unit {0}))
  sent : List ServingStatus

abbrev next_answer : List (Result (Unit {0})) → Result (Unit {0})
next_answer [] = ok tt
next_answer (a ∷ _) = a

abbrev later_answers : List (Result (Unit {0})) → List (Result (Unit {0}))
later_answers [] = []
later_answers (_ ∷ rest) = rest

abbrev flaky : Store ℤ Line
flaky = record {
  increment = λ _ _ w. (returns (ok (pos 0)), w);
  increment_by = λ _ _ _ w. (returns (ok (pos 0)), w);
  get = λ _ w. (returns (ok ""), w);
  set = λ _ _ _ w. (returns (ok tt), w);
  delete = λ _ w. (returns (ok tt), w);
  z_add = λ _ _ _ _ w. (returns (ok tt), w);
  z_rem_range_by_score = λ _ _ _ w. (returns (ok tt), w);
  z_count = λ _ _ _ w. (returns (ok (pos 0)), w);
  expire = λ _ _ w. (returns (ok tt), w);
  ping = λ w. (returns (next_answer w.answers), record w { answers = later_answers w.answers });
  close = λ w. (returns (ok tt), w);
}

abbrev stopped : Clock Line
stopped = record { read = λ w. (pos 0, w) }

abbrev send : ServingStatus → Exec Line (Result (Unit {0}))
send s w = (returns (ok tt), record w { sent = s ∷ w.sent })

abbrev up_and_down : Line
up_and_down = record {
  answers = ok tt ∷ ok tt ∷ err (message "down") ∷ err (message "down") ∷ ok tt ∷ [];
  sent = [];
}

abbrev four_ticks : List Event
four_ticks = tick ∷ tick ∷ tick ∷ tick ∷ cancelled (message "gone") ∷ []

watch_test :
    (watch flaky stopped send four_ticks up_and_down).1.sent ≡ serving ∷ not_serving ∷ serving ∷ []
unfolding watch watch_loop current_status
watch_test = refl

flaky-IsStream : IsStream flaky send
flaky-IsStream = record {
  sent = λ w. w.sent;
  ping_sent = λ w. refl;
  send_answer = λ s w. refl;
  send_sent = λ s w. refl;
}

watch-Alternates_example :
    Alternates (flaky-IsStream.sent (watch flaky stopped send four_ticks up_and_down).1)
unfolding flaky-IsStream
watch-Alternates_example =
    watch-Alternates flaky stopped send flaky-IsStream four_ticks up_and_down refl

watch_ends_example :
    (watch flaky stopped send (replicate 4 tick ++ cancelled (message "gone") ∷ []) up_and_down).0
    ≡ returns (some (message "gone"))
watch_ends_example =
    watch_ends flaky stopped send flaky-IsStream (λ w. (next_answer w.answers, refl)) 4
      (message "gone") [] up_and_down

-- ===== src/Memory/Tests.antt =====
-- Runs of the in-memory store.
use throttle.Prelude.{
  replicate, ◌++◌, true, ◌+◌, none, ◌*◌, ◌≡◌, refl, false, [], ◌∷◌, arith, ◌==◌, if◌then◌else◌,
}
use throttle.Int.{ℤ, pos, ◌+ℤ◌}
use throttle.Int64.{add64}
use throttle.Exec.{ok, returns}
use throttle.Dict
use throttle.Memory.{
  new_memory_store, get, z_count, z_rem_range_by_score, World, set, delete, increment, expire,
  remove_expired_keys, is_expired,
}
use throttle.Memory.Values.{
  entry_at, value_at, next_time, counter, IsStore, value_at-expire, increment_expired,
}
use throttle.Memory.SortedSets.{z_count-z_rem_range_by_score}
use throttle.Float64.Whole.{whole_numbers}
use throttle.Memory.Cleanup.{ticked, closed, unexpired, cleanup_expired, cleanup_expired_lem}
use throttle.Memory.Histories.{
  History, gets, sets, deletes, cleans_up, answers, expected, answers-expected,
}

-- Two entries: a text until the time 50, and the counter 41 until the time 20.
abbrev two_entries : World ℤ
two_entries = record {
  clock = λ n. pos (10 * n);
  readings = 3;
  memory = record {
    entries =
        ("name", record { value = "throttle"; expiration = pos 50 })
        ∷ ("hits", counter (pos 41) (pos 20))
        ∷ [];
    sorted_sets = [];
    stopped = false;
  };
}

two_entries-IsStore : IsStore two_entries
two_entries-IsStore = ground arith

value_at-expire_example : value_at (expire "name" (pos 15) two_entries).1 "name" (pos 40) ≡ (
    if "name" == "name"
    then (if is_expired (next_time two_entries +ℤ pos 15) (pos 40) then "" else "throttle")
    else value_at two_entries "name" (pos 40))
unfolding Dict.lookup
value_at-expire_example =
    value_at-expire two_entries "name" "name" (pos 15) (pos 40)
      (record { value = "throttle"; expiration = pos 50 }) refl

increment_expired_example :
    (value_at two_entries "hits" (pos 30) ≡ "")
    × ((increment "hits" (pos 60) two_entries).0 ≡ returns (ok (add64 (pos 41) (pos 1))))
unfolding Dict.lookup
increment_expired_example =
    increment_expired two_entries "hits" (pos 41) (pos 60) (pos 20) (pos 30)
      (omega arith, omega arith) refl refl

-- A history on a new store: the text is set, read, cleaned up after it has expired, and set again.
abbrev history : History
history =
    (pos 10, sets "name" "throttle" (pos 5))
    ∷ (pos 12, gets "name")
    ∷ (pos 15, gets "name")
    ∷ (pos 16, cleans_up)
    ∷ (pos 16, gets "name")
    ∷ (pos 17, sets "name" "again" (pos 5))
    ∷ (pos 18, deletes "other")
    ∷ (pos 20, gets "name")
    ∷ []

abbrev new_world : World ℤ
new_world = record { clock = λ n. pos n; readings = 0; memory = new_memory_store }

answers_test :
    answers history new_world
    ≡ returns (ok "throttle")
      ∷ returns (ok "throttle")
      ∷ returns (ok "")
      ∷ returns (ok "again")
      ∷ []
unfolding answers set get delete remove_expired_keys Dict.lookup Dict.insert Dict.delete_where ◌+ℤ◌
answers_test = refl

answers-expected_example : answers history new_world ≡ expected history (λ _. none)
unfolding value_at Dict.lookup
answers-expected_example =
    answers-expected history (pos 10) new_world (λ _. none) (omega arith)
      (record { store = ground arith; same = λ k t later. refl })

-- Two clients with three requests, scored by their times.
abbrev requests : World ℤ
requests = record new_world {
  memory = record new_world.memory {
    sorted_sets =
        ("a", record { members = ("r1", pos 3) ∷ ("r2", pos 8) ∷ []; expiration = pos 100 })
        ∷ ("b", record { members = ("r3", pos 4) ∷ []; expiration = pos 100 })
        ∷ [];
  };
}

z_count-z_rem_range_by_score_example :
    let after = (z_rem_range_by_score whole_numbers "a" (pos 0) (pos 5) requests).1 in
    ((z_count whole_numbers "a" (pos 0) (pos 5) after).0 ≡ returns (ok (pos 0)))
    × ((z_count whole_numbers "a" (pos 6) (pos 9) after).0
        ≡ (z_count whole_numbers "a" (pos 6) (pos 9) requests).0)
    × ((z_count whole_numbers "b" (pos 0) (pos 5) after).0
        ≡ (z_count whole_numbers "b" (pos 0) (pos 5) requests).0)
z_count-z_rem_range_by_score_example =
    z_count-z_rem_range_by_score whole_numbers requests "a" "b" (pos 0) (pos 5) (pos 6) (pos 9)
      (λ x h. ground arith) refl

-- The counter expires at 20: the ticks at 30, 40 and 50 remove it, and leave the text.
cleanup_test :
    (cleanup_expired (replicate 3 ticked ++ closed ∷ []) two_entries).1.memory.entries
    ≡ ("name", record { value = "throttle"; expiration = pos 50 }) ∷ []
unfolding cleanup_expired remove_expired_keys Dict.delete_where
cleanup_test = refl

cleanup_expired_lem_example :
    let (ended, after) = cleanup_expired (replicate 3 ticked ++ closed ∷ []) two_entries in
    (ended ≡ returns true)
    × (entry_at after "hits"
        ≡ unexpired (two_entries.clock (2 + two_entries.readings)) (entry_at two_entries "hits"))
cleanup_expired_lem_example =
    cleanup_expired_lem 2 [] two_entries "hits" (λ n. omega arith) two_entries-IsStore

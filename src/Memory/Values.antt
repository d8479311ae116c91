-- ===== src/Memory/Values.antt =====
-- The values of the in-memory store, seen as a map from keys to texts that expire. The view of a key
-- depends on the time at which it is looked at; `""` stands for no value, as in the program.
use throttle.Prelude.{
  String, ◌≡◌, refl, true, Option, none, some, arith, ◌==◌, eq_refl, if◌then◌else◌,
}
use throttle.Int.{ℤ, pos, ◌+ℤ◌, ◌≤ℤ◌}
use throttle.Int64.{add64, IsInt64}
use throttle.Exec.{ok, returns}
use throttle.Dict
use throttle.Dict.Laws.{
  IsDict, lookup-insert, lookup-delete, lookup-delete_where, IsDict-insert, IsDict-delete,
  IsDict-delete_where,
}
use throttle.Memory.{
  World, StorageValue, is_expired, get, set, delete, increment, increment_by, expire,
  remove_expired_keys, incremented, current_val,
}
use throttle.Memory.Scan.{print_int}
use throttle.Memory.Scan.RoundTrip.{scan-print}

abbrev pub live_text : ℤ → Option StorageValue → String
live_text t none = ""
live_text t (some val) = if is_expired val.expiration t then "" else val.value

-- The number `n` as an entry of the store.
abbrev pub counter : ℤ → ℤ → StorageValue
counter n expiration = record { value = print_int n; expiration = expiration }

current_val-counter : (n e : ℤ) → IsInt64 n → current_val (some (counter n e)) ≡ n
current_val-counter n e small = ground (arith, scan-print n small)

incremented-counter : (n e : ℤ) → IsInt64 n → incremented (some (counter n e)) ≡ add64 n (pos 1)
incremented-counter n e small = ground (arith, scan-print n small)

module _ {F : Type 0} where
  -- What stands under a key, expired or not.
  abbrev pub entry_at : World F → String → Option StorageValue
  entry_at w k = Dict.lookup k w.memory.entries

  -- What a client sees of a key at the time `t`.
  unfoldable pub value_at : World F → String → ℤ → String
  value_at w k t = live_text t (entry_at w k)

  -- The time that the next reading of the clock shows.
  abbrev pub next_time : World F → ℤ
  next_time w = w.clock w.readings

  -- `Get` answers with the view at the next reading of the clock, and changes no entry.
  pub get_view :
      (w : World F) (k : String)
      → ((get k w).0 ≡ returns (ok (value_at w k (next_time w)))) × ((get k w).1.memory ≡ w.memory)
  unfolding get value_at
  get_view w k = ground arith

  -- After `Set` the key shows the text until the time set plus the expiration, and every other key
  -- shows what it showed before.
  pub value_at-set :
      (w : World F) (k j v : String) (d t : ℤ)
      → value_at (set k v d w).1 j t
        ≡ (if k == j then (if is_expired (next_time w +ℤ d) t then "" else v) else value_at w j t)
  unfolding set value_at
  value_at-set w k j v d t = ground (
    arith,
    lookup-insert k j (record { value = v; expiration = next_time w +ℤ d }) w.memory.entries,
  )

  -- After `Delete` the key shows nothing, and every other key shows what it showed before.
  pub value_at-delete :
      (w : World F) (k j : String) (t : ℤ)
      → value_at (delete k w).1 j t ≡ (if k == j then "" else value_at w j t)
  unfolding delete value_at
  value_at-delete w k j t = ground (arith, lookup-delete k j w.memory.entries)

  -- The entries of the store are a map: no key stands twice.
  abbrev pub IsStore : World F → Type 0
  IsStore w = IsDict w.memory.entries

  -- If no key stands twice, the cleanup goroutine removes nothing that a client could still see: from
  -- the time of the cleanup on, every key shows what it would have shown without it.
  pub value_at-remove_expired_keys :
      (w : World F) (k : String) (t : ℤ)
      → IsStore w
      → next_time w ≤ℤ t
      → value_at (remove_expired_keys w).1 k t ≡ value_at w k t
  unfolding remove_expired_keys value_at
  value_at-remove_expired_keys w k t h later =
      rw (lookup-delete_where k (λ v. is_expired v.expiration (next_time w)) w.memory.entries h)
        (ground arith)

  -- The entries after `Expire`.
  abbrev expired_entries : World F → String → ℤ → Option StorageValue → Dict.Dict StorageValue
  expired_entries w k d none = w.memory.entries
  expired_entries w k d (some val) =
      Dict.insert k (record val { expiration = next_time w +ℤ d }) w.memory.entries

  entries-expire :
      (w : World F) (k : String) (d : ℤ)
      → (expire k d w).1.memory.entries ≡ expired_entries w k d (Dict.lookup k w.memory.entries)
  unfolding expire
  entries-expire w k d = ground arith

  expire-IsStore : (w : World F) (k : String) (d : ℤ) → IsStore w → IsStore (expire k d w).1
  expire-IsStore w k d h =
      rw (entries-expire w k d) (expired-IsDict (Dict.lookup k w.memory.entries))
    where
      expired-IsDict : (o : Option StorageValue) → IsDict (expired_entries w k d o)
      expired-IsDict none = h
      expired-IsDict (some val) = IsDict-insert k _ w.memory.entries h

  -- Every operation on values, and the cleanup, keeps the entries a map.
  pub operations-IsStore :
      (w : World F) (k v : String) (n d : ℤ)
      → IsStore w
      → IsStore (set k v d w).1
        × IsStore (delete k w).1
        × IsStore (increment k d w).1
        × IsStore (increment_by k n d w).1
        × IsStore (expire k d w).1
        × IsStore (remove_expired_keys w).1
  unfolding set delete increment increment_by remove_expired_keys
  operations-IsStore w k v n d h = (
    IsDict-insert k _ w.memory.entries h,
    IsDict-delete k w.memory.entries h,
    IsDict-insert k _ w.memory.entries h,
    IsDict-insert k _ w.memory.entries h,
    expire-IsStore w k d h,
    IsDict-delete_where _ w.memory.entries h,
  )

  -- `Expire` gives a key that is there a new expiration and leaves its text; every other key shows
  -- what it showed before.
  pub value_at-expire :
      (w : World F) (k j : String) (d t : ℤ) (val : StorageValue)
      → entry_at w k ≡ some val
      → value_at (expire k d w).1 j t ≡ (
          if k == j
          then (if is_expired (next_time w +ℤ d) t then "" else val.value)
          else value_at w j t)
  unfolding expire value_at
  value_at-expire w k j d t val found = ground (
    arith,
    found,
    lookup-insert k j (record val { expiration = next_time w +ℤ d }) w.memory.entries,
  )

  -- `IncrementBy` on a key that holds the int64 `n`, be the entry expired or not, answers with the
  -- sum, wrapped to an int64, and stores it with the new expiration.
  pub increment_by_lem :
      (w : World F) (k : String) (n v d e : ℤ)
      → IsInt64 n
      → entry_at w k ≡ some (counter n e)
      → ((increment_by k v d w).0 ≡ returns (ok (add64 n v)))
        × (entry_at (increment_by k v d w).1 k ≡ some (counter (add64 n v) (next_time w +ℤ d)))
  unfolding increment_by
  increment_by_lem w k n v d e small found =
      rw (found, current_val-counter n e small)
        (
          refl,
          rw (
            lookup-insert k k (counter (add64 n v) (next_time w +ℤ d)) w.memory.entries,
            eq_refl k,
          ),
        )

  -- `Increment` does so with the sum of the number and 1.
  pub increment_lem :
      (w : World F) (k : String) (n d e : ℤ)
      → IsInt64 n
      → entry_at w k ≡ some (counter n e)
      → ((increment k d w).0 ≡ returns (ok (add64 n (pos 1))))
        × (entry_at (increment k d w).1 k ≡ some (counter (add64 n (pos 1)) (next_time w +ℤ d)))
  unfolding increment
  increment_lem w k n d e small found =
      rw (found, incremented-counter n e small)
        (
          refl,
          rw (
            lookup-insert k k (counter (add64 n (pos 1)) (next_time w +ℤ d)) w.memory.entries,
            eq_refl k,
          ),
        )

  -- An int64 counter that has expired is "" to `Get`, and `Increment` still counts on from it.
  pub increment_expired :
      (w : World F) (k : String) (n d e t : ℤ)
      → IsInt64 n
      → entry_at w k ≡ some (counter n e)
      → is_expired e t ≡ true
      → (value_at w k t ≡ "") × ((increment k d w).0 ≡ returns (ok (add64 n (pos 1))))
  unfolding value_at
  increment_expired w k n d e t small found expired =
      (rw (found, expired), (increment_lem w k n d e small found).0)

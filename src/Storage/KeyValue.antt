-- ===== src/Storage/KeyValue.antt =====
-- What the service relies on in a store: the documented behaviour of a key-value server that is
-- reached without errors, as Redis is for `GET`, `SET` without an expiration (the duration 0) and `DEL`.
use throttle.Prelude.{String, ◌≡◌, ◌==◌, if◌then◌else◌}
use throttle.Int.{pos}
use throttle.Exec.{ok, returns}
use throttle.Time.{Clock}
use throttle.Storage.{Store}

-- `value w k` is the text under the key `k`, or "" for none.
pub record IsKeyValue {F W : Type 0} (store : Store F W) (clock : Clock W) : Type 0 where
  pub value : W → String → String
  pub get_answer : (w : W) (k : String) → (store.get k w).0 ≡ returns (ok (value w k))
  pub get_value : (w : W) (k j : String) → value (store.get k w).1 j ≡ value w j
  pub set_answer : (w : W) (k v : String) → (store.set k v (pos 0) w).0 ≡ returns (ok tt)
  pub set_value :
      (w : W) (k j v : String)
      → value (store.set k v (pos 0) w).1 j ≡ (if k == j then v else value w j)
  pub delete_answer : (w : W) (k : String) → (store.delete k w).0 ≡ returns (ok tt)
  pub delete_value :
      (w : W) (k j : String) → value (store.delete k w).1 j ≡ (if k == j then "" else value w j)
  pub read_value : (w : W) (j : String) → value (clock.read w).1 j ≡ value w j

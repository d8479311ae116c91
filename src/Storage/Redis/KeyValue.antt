-- ===== src/Storage/Redis/KeyValue.antt =====
-- The Redis store as a key-value store.
use throttle.Prelude.{String, ◌≡◌, arith, ◌⊎◌, inl, inr, refl, ap}
use throttle.Exec.{ok, returns}
use throttle.Time.{Clock}
use throttle.Storage.KeyValue.{IsKeyValue}
use throttle.Storage.Redis.{Client, Reply, found, nil, failed, get, redis_store}
use throttle.Storage.Redis.Values.{IsServer}

-- A key holds a text or nothing, which neither GET nor a reading of the clock changes.
pub record IsUndisturbed {F W : Type 0} {client : Client F W} (server : IsServer client)
    (clock : Clock W) : Type 0 where
  pub reached :
      (w : W) (k : String) → ((s : String) × (server.held w k ≡ found s)) ⊎ (server.held w k ≡ nil)
  pub get_held : (w : W) (k j : String) → server.held (client.get k w).1 j ≡ server.held w j
  pub read_held : (w : W) (j : String) → server.held (clock.read w).1 j ≡ server.held w j

abbrev pub text_of : Reply → String
text_of (found s) = s
text_of nil = ""
text_of (failed e) = ""

module _ {F W : Type 0} {client : Client F W} (server : IsServer client) (clock : Clock W)
    (steady : IsUndisturbed server clock) where
  get_run :
      (w : W) (k : String)
      → get client k w ≡ (returns (ok (text_of (server.held w k))), (client.get k w).1)
  get_run w k = elim (steady.reached w k) [
    | inl (s, e) ↦ rw (server.get_answer w k, e) refl
    | inr e ↦ rw (server.get_answer w k, e) refl
  ]

  pub redis-IsKeyValue : IsKeyValue (redis_store client) clock
  redis-IsKeyValue = record {
    value = λ w k. text_of (server.held w k);
    get_answer = λ w k. ap (λ r. r.0) (get_run w k);
    get_value = λ w k j. rw (get_run w k) (ap text_of (steady.get_held w k j));
    set_answer = λ w k v. ground (arith, server.set_answer w k v);
    set_value = λ w k j v. ground (arith, server.set_answer w k v, server.set_held w k j v);
    delete_answer = λ w k. ground (arith, server.del_answer w k);
    delete_value = λ w k j. ground (arith, server.del_answer w k, server.del_held w k j);
    read_value = λ w j. ap text_of (steady.read_held w j);
  }

-- ===== src/Storage/Redis/Values.antt =====
-- The texts that the Redis store keeps.
use throttle.Prelude.{String, ◌≡◌, arith, ◌==◌, if◌then◌else◌}
use throttle.Int.{pos}
use throttle.Exec.{ok, returns}
use throttle.Storage.Redis.{Client, Reply, found, nil, get, set, delete}

-- A server that is reached without errors: GET answers with what a key holds, SET without an
-- expiration replaces it, and DEL removes it.
pub record IsServer {F W : Type 0} (client : Client F W) : Type 0 where
  pub held : W → String → Reply
  pub get_answer : (w : W) (k : String) → (client.get k w).0 ≡ returns (held w k)
  pub set_answer : (w : W) (k v : String) → (client.set k v (pos 0) w).0 ≡ returns (ok tt)
  pub set_held :
      (w : W) (k j v : String)
      → held (client.set k v (pos 0) w).1 j ≡ (if k == j then found v else held w j)
  pub del_answer : (w : W) (k : String) → (client.del k w).0 ≡ returns (ok tt)
  pub del_held :
      (w : W) (k j : String) → held (client.del k w).1 j ≡ (if k == j then nil else held w j)

module _ {F W : Type 0} (client : Client F W) (server : IsServer client) where
  -- Over a server that is reached without errors: after `Set` without an expiration and after `Delete`,
  -- which both succeed, `Get` answers with the text that was set and with "" for that key, and for
  -- every other key with what it answered before.
  pub get-after :
      (w : W) (k j v : String)
      → ((set client k v (pos 0) w).0 ≡ returns (ok tt))
        × ((get client j (set client k v (pos 0) w).1).0
            ≡ (if k == j then returns (ok v) else (get client j w).0))
        × ((delete client k w).0 ≡ returns (ok tt))
        × ((get client j (delete client k w).1).0
            ≡ (if k == j then returns (ok "") else (get client j w).0))
  get-after w k j v =
      let written = (client.set k v (pos 0) w).1 in
      let removed = (client.del k w).1 in
      (
        ground (arith, server.set_answer w k v),
        ground (
          arith,
          server.set_answer w k v,
          server.set_held w k j v,
          server.get_answer w j,
          server.get_answer written j,
        ),
        ground (arith, server.del_answer w k),
        ground (
          arith,
          server.del_answer w k,
          server.del_held w k j,
          server.get_answer w j,
          server.get_answer removed j,
        ),
      )

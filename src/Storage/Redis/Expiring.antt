-- ===== src/Storage/Redis/Expiring.antt =====
-- The Redis store as a store with expirations.
use throttle.Prelude.{
  String, ◌≡◌, refl, Option, none, some, inl, inr, Option-cases, ap, false, ◌==◌,
}
use throttle.Int.{ℤ, pos, ◌+ℤ◌, ◌≤ℤ◌, ◌<ℤ◌}
use throttle.Exec.{ok, returns}
use throttle.Time.{Clock}
use throttle.Storage.Expiring.{IsExpiring, millisecond}
use throttle.Storage.Redis.{Client, Reply, found, nil, get, set, delete, redis_store}

abbrev pub reply_of : Option String → Reply
reply_of none = nil
reply_of (some s) = found s

abbrev pub or_empty : Option String → String
or_empty none = ""
or_empty (some s) = s

-- A server that is reached without errors and keeps the time of its clients: `held w k t` is the text
-- that the key `k` has at the time `t` if no command is sent until then. GET answers with what the key
-- has, SET with an expiration, which go-redis cuts to milliseconds, keeps the text for that long, SET
-- without one for good, and DEL and SET change no other key.
pub record IsExpiringServer {F W : Type 0} (client : Client F W) (clock : Clock W) : Type 0 where
  pub now : W → ℤ
  pub held : W → String → ℤ → Option String
  pub read_answer : (w : W) → (clock.read w).0 ≡ now w
  pub read_later : (w : W) → now w ≤ℤ now (clock.read w).1
  pub read_held : (w : W) (k : String) (t : ℤ) → held (clock.read w).1 k t ≡ held w k t
  pub get_answer : (w : W) (k : String) → (client.get k w).0 ≡ returns (reply_of (held w k (now w)))
  pub get_later : (w : W) (k : String) → now w ≤ℤ now (client.get k w).1
  pub get_held : (w : W) (k j : String) (t : ℤ) → held (client.get k w).1 j t ≡ held w j t
  pub set_answer : (w : W) (k v : String) (d : ℤ) → (client.set k v d w).0 ≡ returns (ok tt)
  pub set_later : (w : W) (k v : String) (d : ℤ) → now w ≤ℤ now (client.set k v d w).1
  pub set_held :
      (w : W) (k v : String) (d t : ℤ)
      → pos 0 <ℤ d
      → now w ≤ℤ t
      → t +ℤ millisecond ≤ℤ now w +ℤ d
      → held (client.set k v d w).1 k t ≡ some v
  pub set_kept : (w : W) (k v : String) (t : ℤ) → held (client.set k v (pos 0) w).1 k t ≡ some v
  pub set_others :
      (w : W) (k j v : String) (d t : ℤ)
      → (k == j) ≡ false
      → held (client.set k v d w).1 j t ≡ held w j t
  pub del_answer : (w : W) (k : String) → (client.del k w).0 ≡ returns (ok tt)
  pub del_later : (w : W) (k : String) → now w ≤ℤ now (client.del k w).1
  pub del_others :
      (w : W) (k j : String) (t : ℤ) → (k == j) ≡ false → held (client.del k w).1 j t ≡ held w j t

module _ {F W : Type 0} {client : Client F W} {clock : Clock W}
    (server : IsExpiringServer client clock) where
  pub get_run :
      (w : W) (k : String)
      → get client k w
        ≡ (returns (ok (or_empty (server.held w k (server.now w)))), (client.get k w).1)
  get_run w k = elim (Option-cases (server.held w k (server.now w))) [
    | inl e ↦ rw (server.get_answer w k, e) refl
    | inr (s, e) ↦ rw (server.get_answer w k, e) refl
  ]

  pub set_run :
      (w : W) (k v : String) (d : ℤ)
      → set client k v d w ≡ (returns (ok tt), (client.set k v d w).1)
  set_run w k v d = rw (server.set_answer w k v d) refl

  pub delete_run : (w : W) (k : String) → delete client k w ≡ (returns (ok tt), (client.del k w).1)
  delete_run w k = rw (server.del_answer w k) refl

  unfoldable pub redis-IsExpiring : IsExpiring (redis_store client) clock
  redis-IsExpiring = record {
    now = server.now;
    shown = λ w k t. or_empty (server.held w k t);
    read_answer = server.read_answer;
    read_later = server.read_later;
    read_shown = λ w k t. ap or_empty (server.read_held w k t);
    get_answer = λ w k. rw (get_run w k) refl;
    get_later = λ w k. rw (get_run w k) (server.get_later w k);
    get_shown = λ w k j t. rw (get_run w k) (ap or_empty (server.get_held w k j t));
    set_answer = λ w k v d. rw (set_run w k v d) refl;
    set_later = λ w k v d. rw (set_run w k v d) (server.set_later w k v d);
    set_shown = λ w k v d t positive later inside.
        rw (set_run w k v d) (ap or_empty (server.set_held w k v d t positive later inside));
    set_kept = λ w k v t. rw (set_run w k v (pos 0)) (ap or_empty (server.set_kept w k v t));
    set_others = λ w k j v d t other.
        rw (set_run w k v d) (ap or_empty (server.set_others w k j v d t other));
    delete_answer = λ w k. rw (delete_run w k) refl;
    delete_later = λ w k. rw (delete_run w k) (server.del_later w k);
    delete_others =
        λ w k j t other. rw (delete_run w k) (ap or_empty (server.del_others w k j t other));
  }

-- ===== src/Storage/Expiring.antt =====
-- What a rate limiter relies on in a store with expirations: the documented behaviour of a server that
-- is reached without errors and keeps the time of its clients, as Redis is for `GET`, `SET` and `DEL`.
pub mod Guarded
use throttle.Prelude.{String, ◌≡◌, false, ◌==◌}
use throttle.Int.{ℤ, pos, ◌+ℤ◌, ◌≤ℤ◌, ◌<ℤ◌}
use throttle.Exec.{ok, returns}
use throttle.Time.{Clock}
use throttle.Storage.{Store}

-- go-redis cuts an expiration to whole milliseconds.
abbrev pub millisecond : ℤ
millisecond = pos 1000000

-- `now w` is the time of the next reading of the clock, and `shown w k t` the text that the key `k`
-- shows at the time `t` if nothing is written until then, or "" for none.
pub record IsExpiring {F W : Type 0} (store : Store F W) (clock : Clock W) : Type 0 where
  pub now : W → ℤ
  pub shown : W → String → ℤ → String
  pub read_answer : (w : W) → (clock.read w).0 ≡ now w
  pub read_later : (w : W) → now w ≤ℤ now (clock.read w).1
  pub read_shown : (w : W) (k : String) (t : ℤ) → shown (clock.read w).1 k t ≡ shown w k t
  pub get_answer : (w : W) (k : String) → (store.get k w).0 ≡ returns (ok (shown w k (now w)))
  pub get_later : (w : W) (k : String) → now w ≤ℤ now (store.get k w).1
  pub get_shown : (w : W) (k j : String) (t : ℤ) → shown (store.get k w).1 j t ≡ shown w j t
  pub set_answer : (w : W) (k v : String) (d : ℤ) → (store.set k v d w).0 ≡ returns (ok tt)
  pub set_later : (w : W) (k v : String) (d : ℤ) → now w ≤ℤ now (store.set k v d w).1
  -- With a positive expiration the text stays until it is over,
  pub set_shown :
      (w : W) (k v : String) (d t : ℤ)
      → pos 0 <ℤ d
      → now w ≤ℤ t
      → t +ℤ millisecond ≤ℤ now w +ℤ d
      → shown (store.set k v d w).1 k t ≡ v
  -- and with the expiration 0 for good.
  pub set_kept : (w : W) (k v : String) (t : ℤ) → shown (store.set k v (pos 0) w).1 k t ≡ v
  pub set_others :
      (w : W) (k j v : String) (d t : ℤ)
      → (k == j) ≡ false
      → shown (store.set k v d w).1 j t ≡ shown w j t
  pub delete_answer : (w : W) (k : String) → (store.delete k w).0 ≡ returns (ok tt)
  pub delete_later : (w : W) (k : String) → now w ≤ℤ now (store.delete k w).1
  pub delete_others :
      (w : W) (k j : String) (t : ℤ)
      → (k == j) ≡ false
      → shown (store.delete k w).1 j t ≡ shown w j t

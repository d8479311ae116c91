-- ===== src/Storage.antt =====
-- internal/storage/interface.go: the `Store` that the limiters and services are written against.
-- The `context` argument is left out: no implementation in the repository reads it itself.
pub mod KeyValue
pub mod Expiring
pub mod Redis
use throttle.Prelude.{String}
use throttle.Int.{ℤ}
use throttle.Exec.{Result, Exec}

-- `F` is the type of scores, `W` the world that the backend lives in; durations are `int64`s.
pub record Store (F W : Type 0) : Type 0 where
  pub increment : String → ℤ → Exec W (Result ℤ)
  pub increment_by : String → ℤ → ℤ → Exec W (Result ℤ)
  pub get : String → Exec W (Result String)
  pub set : String → String → ℤ → Exec W (Result (Unit {0}))
  pub delete : String → Exec W (Result (Unit {0}))
  pub z_add : String → F → String → ℤ → Exec W (Result (Unit {0}))
  pub z_rem_range_by_score : String → F → F → Exec W (Result (Unit {0}))
  pub z_count : String → F → F → Exec W (Result ℤ)
  pub expire : String → ℤ → Exec W (Result (Unit {0}))
  pub ping : Exec W (Result (Unit {0}))
  pub close : Exec W (Result (Unit {0}))

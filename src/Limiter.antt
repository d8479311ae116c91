-- ===== src/Limiter.antt =====
-- internal/limiter/interface.go, and what the four limiters share.
pub mod Decisions
pub mod Requests
pub mod Foreign
pub mod FixedWindow
pub mod SlidingWindow
pub mod LeakyBucket
pub mod TokenBucket
use throttle.Prelude.{String, Bool, true, false, Option, none, some}
use throttle.Exec.{Error, Result, Exec}

-- `(bool, error)`: Go returns both values, whatever they are.
pub record Verdict : Type 0 where
  pub allowed : Bool
  pub error : Option Error

-- `return true, err`
abbrev pub fail_open : Error → Verdict
fail_open e = record { allowed = true; error = some e }

-- `return allowed, nil`
abbrev pub verdict : Bool → Verdict
verdict allowed = record { allowed = allowed; error = none }

pub record RateLimiter (W : Type 0) : Type 0 where
  pub allow : String → Exec W Verdict
  pub reset : String → Exec W (Result (Unit {0}))
  pub close : Exec W (Result (Unit {0}))

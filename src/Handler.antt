-- ===== src/Handler.antt =====
-- internal/handler: the HTTP handlers, from the decoded request to the response.
pub mod RateLimit
pub mod Health
use throttle.Prelude.{ℕ, String, List}
use throttle.Int.{ℤ}

pub data Header : Type 0 where
  -- `Content-Type: application/json`
  json_content : Header
  -- `X-RateLimit-Limit`, with the constant text "TBD"
  limit_tbd : Header
  remaining : ℤ → Header
  reset : ℤ → Header
  retry_after : ℤ → Header

-- A response: the status, the headers in the order they are set, and the value that is encoded.
pub record Response (B : Type 0) : Type 0 where
  pub status : ℕ
  pub headers : List Header
  pub body : B

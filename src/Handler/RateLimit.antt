-- ===== src/Handler/RateLimit.antt =====
-- internal/handler/ratelimit.go
pub mod Statuses
pub mod Requests
pub mod Answers
pub mod Enforced
pub mod Served
pub mod OnRedis
mod Tests
use throttle.Prelude.{ℕ, Bool, String, [], ◌∷◌, ◌==◌, if◌then◌else◌}
use throttle.Int.{ℤ}
use throttle.Exec.{Error, Result, ok, err, Exec, pure, or_return, is_not_found, ◌>>=◌}
use throttle.Time.{Clock}
use throttle.Float64.{Float64}
use throttle.Storage.{Store}
use throttle.Service.Config.{RateLimitConfig}
use throttle.Service.Limiters.{CheckLimitResponse, GetStatusResponse, Codecs, Service, in_world}
use throttle.Service.RateLimit.{set_config, check_limit, get_status, reset_limit}
use throttle.Handler.{json_content, limit_tbd, remaining, reset, retry_after, Response}

-- The body of the response to a check,
pub record CheckResponse : Type 0 where
  pub allowed : Bool
  pub remaining : ℤ
  pub reset_at : ℤ
  pub retry_after : ℤ

-- and to a request for the status.
pub record StatusResponse : Type 0 where
  pub key : String
  pub algorithm : String
  pub config : RateLimitConfig
  pub created_at : ℤ
  pub updated_at : ℤ
  pub next_reset : ℤ

-- The bodies of the responses; `reported` is the text of an error.
pub data Body : Type 0 where
  fixed_error : String → Body
  reported : Error → Body
  done : String → String → Body
  checked : CheckResponse → Body
  status_of : StatusResponse → Body

-- `writeError`
abbrev pub write_error : ℕ → Body → Response Body
write_error code body = record { status = code; headers = json_content ∷ []; body = body }

unfoldable pub get_status_code_for_error : Error → ℕ
unfolding is_not_found
get_status_code_for_error e = if is_not_found e then 404 else 500

abbrev pub bad_request : String → Response Body
bad_request text = write_error 400 (fixed_error text)

abbrev pub failure : Error → Response Body
failure e = write_error (get_status_code_for_error e) (reported e)

-- The response to a check that was made.
unfoldable pub check_response : CheckLimitResponse → Response Body
check_response resp = record {
  status = if resp.allowed then 200 else 429;
  headers =
      limit_tbd
      ∷ remaining resp.remaining
      ∷ reset resp.reset_at
      ∷ (if resp.allowed
          then json_content ∷ []
          else retry_after resp.retry_after ∷ json_content ∷ []);
  body = checked (record {
    allowed = resp.allowed;
    remaining = resp.remaining;
    reset_at = resp.reset_at;
    retry_after = resp.retry_after;
  });
}

abbrev pub status_response : String → GetStatusResponse → StatusResponse
status_response key resp = record {
  key = key;
  algorithm = resp.config.algorithm;
  config = resp.config;
  created_at = resp.created_at;
  updated_at = resp.updated_at;
  next_reset = resp.next_reset;
}

-- A request body: what decoding it as JSON gave.
pub record SetRequest : Type 0 where
  pub key : String
  pub config : RateLimitConfig

pub record CheckRequest : Type 0 where
  pub key : String
  pub algorithm : String

module _ {F W : Type 0} (float : Float64 F) (store : Store F W) (clock : Clock W)
    (json : Codecs F) where
  unfoldable pub set : Result SetRequest → Exec (Service F W) (Response Body)
  set (err e) = pure (bad_request "invalid request body")
  set (ok req) = do
    saved ← in_world (set_config float store clock json req.key req.config)
    or_return (λ e. pure (write_error 500 (fixed_error "failed to save configuration")))
        (λ _. pure (record {
          status = 201;
          headers = json_content ∷ [];
          body = done "rate limit configured" req.key;
        }))
        saved

  unfoldable pub check : Result CheckRequest → Exec (Service F W) (Response Body)
  unfolding check_response get_status_code_for_error
  check (err e) = pure (bad_request "invalid request body")
  check (ok req) = if req.key == "" then pure (bad_request "key is required") else do
    result ← check_limit float store clock json req.key
    or_return (λ e. pure (failure e)) (λ resp. pure (check_response resp)) result

  -- `key` is the path variable, "" if there is none.
  unfoldable pub status : String → Exec (Service F W) (Response Body)
  unfolding get_status_code_for_error
  status key = if key == "" then pure (bad_request "key is required") else do
    result ← in_world (get_status float store clock json key)
    or_return (λ e. pure (failure e))
        (λ resp. pure (record {
          status = 200;
          headers = json_content ∷ [];
          body = status_of (status_response key resp);
        }))
        result

  unfoldable pub reset_handler : String → Exec (Service F W) (Response Body)
  unfolding get_status_code_for_error
  reset_handler key = if key == "" then pure (bad_request "key is required") else do
    result ← reset_limit float store clock json key
    or_return (λ e. pure (failure e))
        (λ _. pure (record {
          status = 200;
          headers = json_content ∷ [];
          body = done "rate limit reset" key;
        }))
        result

-- ===== src/Handler/RateLimit/Requests.antt =====
-- internal/handler/ratelimit.go: requests for any key to the four handlers.
use throttle.Prelude.{ℕ, suc, String, ◌≡◌, refl, false, ◌==◌, List, [], ◌∷◌, Bool-cases, inl, inr}
use throttle.Exec.{ok, err, Exec, Outcome-cases}
use throttle.Time.{Clock}
use throttle.Float64.{Float64}
use throttle.Storage.{Store}
use throttle.Storage.Expiring.{IsExpiring}
use throttle.Storage.Expiring.Guarded.{Untouched-refl}
use throttle.Service.Limiters.{Codecs, Service, limiter_key}
use throttle.Service.Limiters.Others.{IsKnown}
use throttle.Service.RateLimit.{set_config, check_limit, get_status, reset_limit}
use throttle.Service.RateLimit.Foreign.{HasForeignKeys, set_config-Leaves, get_status-Leaves}
use throttle.Service.RateLimit.Isolation.{Apart, check_limit-Apart, reset_limit-Apart}
use throttle.Handler.{Response}
use throttle.Handler.RateLimit.{Body, SetRequest, CheckRequest, set, check, status, reset_handler}

-- The requests to the four handlers.
pub data Request : Type 0 where
  setting : SetRequest → Request
  checking : CheckRequest → Request
  asking : String → Request
  resetting : String → Request

abbrev pub key_of : Request → String
key_of (setting req) = req.key
key_of (checking req) = req.key
key_of (asking key) = key
key_of (resetting key) = key

-- A check of one key, or any request for another.
pub data Call : Type 0 where
  own : Call
  other : Request → Call

unfoldable pub own_checks : List Call → ℕ
own_checks [] = 0
own_checks (own ∷ calls) = suc (own_checks calls)
own_checks (other r ∷ calls) = own_checks calls

-- A request for another key, or for the status of any key.
abbrev pub IsOther : String → Request → Type 0
IsOther key (asking other_key) = Unit {0}
IsOther key r = (key_of r == key) ≡ false

abbrev pub AreOthers : String → List Call → Type 0
AreOthers key [] = Unit {0}
AreOthers key (own ∷ calls) = AreOthers key calls
AreOthers key (other r ∷ calls) = IsOther key r × AreOthers key calls

module _ {F W : Type 0} (float : Float64 F) (store : Store F W) (clock : Clock W)
    (json : Codecs F) where
  unfoldable pub serve : Request → Exec (Service F W) (Response Body)
  serve (setting req) = set float store clock json (ok req)
  serve (checking req) = check float store clock json (ok req)
  serve (asking key) = status float store clock json key
  serve (resetting key) = reset_handler float store clock json key

  module _ (ex : IsExpiring store clock) (IsGuarded : String → Type 0) (own_key : String)
      (s : Service F W) where
    abbrev Left : Service F W → Type 0
    Left = Apart float store clock json ex IsGuarded own_key s

    unchanged : Left s
    unchanged = record {
      store_same = Untouched-refl store clock ex IsGuarded s.world;
      limiter_same = refl;
    }

    -- A status request writes nothing.
    pub asking-Apart : (key : String) → Left (serve (asking key) s).1
    unfolding serve status
    asking-Apart key =
        let answer = get_status float store clock json key s.world in
        let left : Left (record s { world = answer.1 }) = record {
          store_same = get_status-Leaves float store clock json ex IsGuarded key s.world;
          limiter_same = refl;
        } in
        elim (Bool-cases (key == "")) [
          | inl empty ↦ rw empty unchanged
          | inr named ↦ elim (Outcome-cases answer.0) [
            | inl panicked ↦ rw (named, panicked) left
            | inr (ok x, answered) ↦ rw (named, answered) left
            | inr (err e, answered) ↦ rw (named, answered) left
          ]
        ]

    pub serve-Apart :
        (r : Request)
        → HasForeignKeys float store clock json ex IsGuarded (key_of r)
        → ((algorithm : String)
            → IsKnown algorithm
            → (limiter_key (key_of r) algorithm == own_key) ≡ false)
        → Left (serve r s).1
    unfolding serve set check status reset_handler
    serve-Apart (setting req) keys apart =
        let saved = set_config float store clock json req.key req.config s.world in
        let left : Left (record s { world = saved.1 }) = record {
          store_same =
              set_config-Leaves float store clock json ex IsGuarded req.key req.config s.world keys;
          limiter_same = refl;
        } in
        elim (Outcome-cases saved.0) [
          | inl panicked ↦ rw panicked left
          | inr (ok x, answered) ↦ rw answered left
          | inr (err e, answered) ↦ rw answered left
        ]
    serve-Apart (checking req) keys apart =
        let answer = check_limit float store clock json req.key s in
        let left =
          check_limit-Apart float store clock json ex IsGuarded own_key req.key s keys apart in
        elim (Bool-cases (req.key == "")) [
          | inl empty ↦ rw empty unchanged
          | inr named ↦ elim (Outcome-cases answer.0) [
            | inl panicked ↦ rw (named, panicked) left
            | inr (ok x, answered) ↦ rw (named, answered) left
            | inr (err e, answered) ↦ rw (named, answered) left
          ]
        ]
    serve-Apart (asking key) keys apart = asking-Apart key
    serve-Apart (resetting key) keys apart =
        let answer = reset_limit float store clock json key s in
        let left = reset_limit-Apart float store clock json ex IsGuarded own_key key s keys apart in
        elim (Bool-cases (key == "")) [
          | inl empty ↦ rw empty unchanged
          | inr named ↦ elim (Outcome-cases answer.0) [
            | inl panicked ↦ rw (named, panicked) left
            | inr (ok x, answered) ↦ rw (named, answered) left
            | inr (err e, answered) ↦ rw (named, answered) left
          ]
        ]

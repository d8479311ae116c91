-- ===== src/Handler/RateLimit/Answers.antt =====
-- internal/handler/ratelimit.go: the answers to a run of requests, and what a request leaves alone, over a
-- store with expirations.
use throttle.Prelude.{
  ℕ, zero, suc, String, ◌≡◌, refl, Option, some, none, List, [], ◌∷◌, arith, inl, inr,
  if◌then◌else◌, ◌==◌, false,
}
use throttle.Int.{ℤ, ◌≤ℤ◌, ◌<ℤ◌}
use throttle.Exec.{Outcome, returns, panics, ok, err, Outcome-cases}
use throttle.Time.{Clock}
use throttle.Float64.{Float64}
use throttle.Storage.{Store}
use throttle.Storage.Expiring.{IsExpiring}
use throttle.Service.Config.{RateLimitConfig, fixed_window}
use throttle.Service.Limiters.{CheckLimitResponse, Codecs, Service, limiter_key}
use throttle.Service.RateLimit.{check_limit}
use throttle.Service.Limiters.Others.{limiter_key-eq}
use throttle.Service.RateLimit.Isolation.{Apart}
use throttle.Service.RateLimit.OwnKeys.{IsOwn, HasForeignKeys-of_ne}
use throttle.Handler.RateLimit.Requests.{
  Request, key_of, serve, serve-Apart, asking-Apart, IsOther, setting, checking, asking, resetting,
  Call, own, other,
}
use throttle.Handler.{Response}
use throttle.Handler.RateLimit.{Body, set, check, check_response}

-- The status of a response that was made.
abbrev pub status_code : Outcome (Response Body) → Option ℕ
status_code (returns r) = some r.status
status_code panics = none

-- The statuses that a quota promises to some requests: 200 while it lasts, and 429 from then on.
unfoldable pub promised : ℕ → ℕ → List (Option ℕ)
promised left zero = []
promised zero (suc n) = some 429 ∷ promised zero n
promised (suc left) (suc n) = some 200 ∷ promised left n

module _ {F W : Type 0} (float : Float64 F) (store : Store F W) (clock : Clock W) (json : Codecs F)
    (key : String) where
  -- `POST /check` for the key.
  abbrev pub request : Service F W → Outcome (Response Body) × Service F W
  request = check float store clock json (ok (record { key = key; algorithm = "" }))

  -- `POST /set` for the key.
  abbrev pub set_request : RateLimitConfig → Service F W → Outcome (Response Body) × Service F W
  set_request cfg = set float store clock json (ok (record { key = key; config = cfg }))

  -- The statuses of the checks of the key, among calls that are made one after the other.
  unfoldable pub statuses : List Call → Service F W → List (Option ℕ)
  statuses [] s = []
  statuses (own ∷ calls) s = let (answer, s') = request s in status_code answer ∷ statuses calls s'
  statuses (other r ∷ calls) s = statuses calls (serve float store clock json r s).1

  module _ (ex : IsExpiring store clock) where
    -- The checks of the key are all answered before some time.
    abbrev pub AnsweredBefore : ℤ → List Call → Service F W → Type 0
    AnsweredBefore end [] s = Unit {0}
    AnsweredBefore end (own ∷ calls) s =
        (ex.now (request s).1.world <ℤ end) × AnsweredBefore end calls (request s).1
    AnsweredBefore end (other r ∷ calls) s =
        AnsweredBefore end calls (serve float store clock json r s).1

    pub AnsweredBefore-later :
        (end later : ℤ) (calls : List Call) (s : Service F W)
        → end ≤ℤ later
        → AnsweredBefore end calls s
        → AnsweredBefore later calls s
    AnsweredBefore-later end later [] s le h = tt
    AnsweredBefore-later end later (own ∷ calls) s le h =
        (omega (arith, le, h.0), AnsweredBefore-later end later calls (request s).1 le h.1)
    AnsweredBefore-later end later (other r ∷ calls) s le h =
        AnsweredBefore-later end later calls (serve float store clock json r s).1 le h

    -- What is kept for the key is left alone by a request for another key,
    foreign_apart :
        (r : Request) (s : Service F W)
        → (key_of r == key) ≡ false
        → Apart float store clock json ex
            (IsOwn key)
            (limiter_key key fixed_window)
            s
            (serve float store clock json r s).1
    foreign_apart r s differ =
        serve-Apart float store clock json ex (IsOwn key) (limiter_key key fixed_window) s r
          (HasForeignKeys-of_ne float store clock json ex key (key_of r) differ)
          (λ algorithm known. limiter_key-eq key (key_of r) algorithm differ known)

    -- and by a request for a status.
    pub other_apart :
        (r : Request) (s : Service F W)
        → IsOther key r
        → Apart float store clock json ex
            (IsOwn key)
            (limiter_key key fixed_window)
            s
            (serve float store clock json r s).1
    other_apart (setting req) s differ = foreign_apart (setting req) s differ
    other_apart (checking req) s differ = foreign_apart (checking req) s differ
    other_apart (asking j) s any =
        asking-Apart float store clock json ex (IsOwn key) (limiter_key key fixed_window) s j
    other_apart (resetting j) s differ = foreign_apart (resetting j) s differ

    -- A request for a key leaves the service as the check leaves it.
    pub request_after :
        (s : Service F W)
        → (key == "") ≡ false
        → (request s).1 ≡ (check_limit float store clock json key s).1
    unfolding check
    request_after s named = elim (Outcome-cases (check_limit float store clock json key s).0) [
      | inl panicked ↦ rw (named, panicked) refl
      | inr (ok resp, answered) ↦ rw (named, answered) refl
      | inr (err e, answered) ↦ rw (named, answered) refl
    ]

    pub request_status :
        (s : Service F W) (resp : CheckLimitResponse)
        → (key == "") ≡ false
        → (check_limit float store clock json key s).0 ≡ returns (ok resp)
        → status_code (request s).0 ≡ some (if resp.allowed then 200 else 429)
    unfolding check check_response
    request_status s resp named answered = rw (named, answered) refl

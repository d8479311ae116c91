-- ===== src/Limiter/Requests.antt =====
-- One request after another on one key, through the `Allow` of a limiter.
use throttle.Prelude.{
  ℕ, zero, suc, String, ◌≡◌, refl, ap, Bool, true, false, List, [], ◌∷◌, map, if◌then◌else◌,
}
use throttle.Int.{ℤ}
use throttle.Exec.{Outcome, returns, panics}
use throttle.Time.{Clock, unix_nano}
use throttle.Limiter.{Verdict, verdict, RateLimiter}
use throttle.Limiter.Decisions.{granted}

module _ {W : Type 0} (clock : Clock W) (limiter : RateLimiter W) (key : String) where
  -- The outcomes of the next `n` requests.
  unfoldable pub outcomes : ℕ → W → List (Outcome Verdict)
  outcomes zero w = []
  outcomes (suc n) w = let (v, w') = limiter.allow key w in v ∷ outcomes n w'

  -- The time that each of them reads first.
  unfoldable pub starts : ℕ → W → List ℤ
  starts zero w = []
  starts (suc n) w = unix_nano (clock.read w).0 ∷ starts n (limiter.allow key w).1

-- The outcomes that stand for plain decisions.
abbrev pub decided : List Bool → List (Outcome Verdict)
decided = map (λ b. returns (verdict b))

-- The times of the requests that were let through, of those that read these times.
abbrev pub let_through : List ℤ → List (Outcome Verdict) → List ℤ
let_through (t ∷ ts) (returns v ∷ os) =
    if v.allowed then t ∷ let_through ts os else let_through ts os
let_through (t ∷ ts) (panics ∷ os) = let_through ts os
let_through _ _ = []

pub let_through-decided :
    (ts : List ℤ) (bs : List Bool) → let_through ts (decided bs) ≡ granted ts bs
let_through-decided [] [] = refl
let_through-decided [] (b ∷ bs) = refl
let_through-decided (t ∷ ts) [] = refl
let_through-decided (t ∷ ts) (true ∷ bs) = ap (λ us. t ∷ us) (let_through-decided ts bs)
let_through-decided (t ∷ ts) (false ∷ bs) = let_through-decided ts bs

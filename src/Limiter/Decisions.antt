-- ===== src/Limiter/Decisions.antt =====
-- Sequences of decisions: `true` for a request that was allowed.
use throttle.Prelude.{
  ℕ, zero, suc, ◌≤◌, ◌≡◌, refl, ap, Bool, true, false, List, [], ◌∷◌, arith, count_where, replicate,
}

abbrev pub allowed_count : List Bool → ℕ
allowed_count = count_where (λ b. b)

module _ {A : Type 0} where
  -- Of these requests the first `k` are allowed and the others denied.
  unfoldable pub first_granted : ℕ → List A → List Bool
  first_granted k [] = []
  first_granted zero (t ∷ ts) = false ∷ first_granted zero ts
  first_granted (suc k) (t ∷ ts) = true ∷ first_granted k ts

  -- The requests that were allowed.
  abbrev pub granted : List A → List Bool → List A
  granted (t ∷ ts) (true ∷ bs) = t ∷ granted ts bs
  granted (t ∷ ts) (false ∷ bs) = granted ts bs
  granted _ _ = []

  pub first_granted-count : (k : ℕ) (ts : List A) → allowed_count (first_granted k ts) ≤ k
  unfolding first_granted
  first_granted-count k [] = omega arith
  first_granted-count zero (t ∷ ts) = first_granted-count zero ts
  first_granted-count (suc k) (t ∷ ts) = omega (arith, first_granted-count k ts)

  pub first_granted_all : (k : ℕ) (t : A) → first_granted k (replicate k t) ≡ replicate k true
  unfolding first_granted
  first_granted_all zero t = refl
  first_granted_all (suc k) t = ap (λ bs. true ∷ bs) (first_granted_all k t)

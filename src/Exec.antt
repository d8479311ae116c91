-- ===== src/Exec.antt =====
-- Go's control flow. A function with effects takes the world and returns it beside its outcome: a
-- value, or a run-time panic. A Go result `(T, error)` is a `Result`; `?` is the early return of an
-- error to the caller.
use throttle.Prelude.{◌⊎◌, inl, inr, refl, ◌≡◌, String, Bool, true, false}

-- `errors.New` and the errors of other packages are `message`s; `wrapped` is `fmt.Errorf("…: %w")`.
-- `not_found` is the sentinel `ErrNotFound`, which `errors.Is` tells by identity.
pub data Error : Type 0 where
  message : String → Error
  wrapped : String → Error → Error
  not_found : Error

pub data Result {ℓ} (A : Type ℓ) : Type ℓ where
  ok : A → Result A
  err : Error → Result A

pub data Outcome {ℓ} (A : Type ℓ) : Type ℓ where
  returns : A → Outcome A
  panics : Outcome A

abbrev pub Exec : Type 0 → Type 0 → Type 0
Exec W A = W → Outcome A × W

module _ {W A : Type 0} where
  abbrev pub pure : A → Exec W A
  pure a w = (returns a, w)

  abbrev pub panic : Exec W A
  panic w = (panics, w)

module _ {W A B : Type 0} where
  abbrev pub continue : Outcome A → (A → Exec W B) → Exec W B
  continue (returns a) f w = f a w
  continue panics f w = (panics, w)

  infixl 5 ◌>>=◌ ◌>>◌
  abbrev pub ◌>>=◌ : Exec W A → (A → Exec W B) → Exec W B
  ◌>>=◌ m f w = let (r, w') = m w in continue r f w'

  abbrev pub ◌>>◌ : Exec W A → Exec W B → Exec W B
  m >> k = m >>= λ _. k

  -- `if err != nil { return …, err }`, with the value that is returned beside the error.
  abbrev pub or_return : (Error → Exec W B) → (A → Exec W B) → Result A → Exec W B
  or_return handler f (ok a) = f a
  or_return handler f (err e) = handler e

-- `errors.Is(err, ErrNotFound)`
unfoldable pub is_not_found : Error → Bool
is_not_found (message s) = false
is_not_found (wrapped s e) = is_not_found e
is_not_found not_found = true

pub Outcome-cases {ℓ} : {A : Type ℓ} (o : Outcome A) → (o ≡ panics) ⊎ ((a : A) × (o ≡ returns a))
Outcome-cases (returns a) = inr (a, refl)
Outcome-cases panics = inl refl

pub Result-cases {ℓ} :
    {A : Type ℓ} (r : Result A) → ((e : Error) × (r ≡ err e)) ⊎ ((a : A) × (r ≡ ok a))
Result-cases (ok a) = inr (a, refl)
Result-cases (err e) = inl (e, refl)

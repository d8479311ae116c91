-- ===== src/Memory/Readings.antt =====
-- The readings of the clock that the methods of the in-memory store make.
use throttle.Prelude.{ℕ, zero, suc, ◌+◌, ◌-◌, ◌≤◌, String, ◌≡◌, refl, arith}
use throttle.Int.{ℤ, ◌≤ℤ◌}
use throttle.Memory.{World, get, set}
use throttle.Memory.Values.{next_time}

-- A clock that never goes back.
abbrev pub NeverBack : (ℕ → ℤ) → Type 0
NeverBack clock = (i : ℕ) → clock i ≤ℤ clock (suc i)

NeverBack-add : (clock : ℕ → ℤ) → NeverBack clock → (i n : ℕ) → clock i ≤ℤ clock (n + i)
NeverBack-add clock h i zero = ground arith
NeverBack-add clock h i (suc n) =
    let e : suc (n + i) ≡ suc n + i = omega arith in
    rw (← e) (omega (arith, NeverBack-add clock h i n, h (n + i)))

pub NeverBack-le : (clock : ℕ → ℤ) → NeverBack clock → (i j : ℕ) → i ≤ j → clock i ≤ℤ clock j
NeverBack-le clock h i j le =
    let e : j - i + i ≡ j = omega arith in rw e at (NeverBack-add clock h i (j - i))

module _ {F : Type 0} where
  -- A world later than another: its clock is the same, and no reading was taken back.
  pub record IsLater (w w' : World F) : Type 0 where
    pub same_clock : w'.clock ≡ w.clock
    pub more_readings : w.readings ≤ w'.readings

  pub get-IsLater : (k : String) (w : World F) → IsLater w (get k w).1
  unfolding get
  get-IsLater k w = record { same_clock = ground arith; more_readings = ground arith }

  -- `Set` reads the clock once.
  pub clock-set : (k v : String) (d : ℤ) (w : World F) → (set k v d w).1.clock ≡ w.clock
  unfolding set
  clock-set k v d w = refl

  pub next_time-set :
      (k v : String) (d : ℤ) (w : World F) → next_time (set k v d w).1 ≡ w.clock (suc w.readings)
  unfolding set
  next_time-set k v d w = refl

-- ===== src/Storage/Expiring/Guarded.antt =====
-- The calls of a store with expirations that leave some of its keys alone.
use throttle.Prelude.{String, ◌≡◌, refl, ◌∙◌, false, arith, ◌==◌}
use throttle.Int.{ℤ, ◌≤ℤ◌}
use throttle.Time.{Clock}
use throttle.Storage.{Store}
use throttle.Storage.Expiring.{IsExpiring}

module _ {F W : Type 0} (store : Store F W) (clock : Clock W) (ex : IsExpiring store clock)
    (IsGuarded : String → Type 0) where
  -- Time has gone on, and the guarded keys show what they would have shown.
  pub record Untouched (w w' : W) : Type 0 where
    pub later : ex.now w ≤ℤ ex.now w'
    pub same : (j : String) (t : ℤ) → IsGuarded j → ex.shown w' j t ≡ ex.shown w j t

  abbrev pub IsForeign : String → Type 0
  IsForeign k = (j : String) → IsGuarded j → (k == j) ≡ false

  pub Untouched-refl : (w : W) → Untouched w w
  Untouched-refl w = record { later = omega arith; same = λ j t _. refl }

  pub Untouched-trans : (w w' w'' : W) → Untouched w w' → Untouched w' w'' → Untouched w w''
  Untouched-trans w w' w'' u v = record {
    later = omega (arith, u.later, v.later);
    same = λ j t guarded. v.same j t guarded ∙ u.same j t guarded;
  }

  module _ (w w' : W) (u : Untouched w w') where
    pub read-Untouched : Untouched w (clock.read w').1
    read-Untouched = record {
      later = omega (arith, u.later, ex.read_later w');
      same = λ j t guarded. ex.read_shown w' j t ∙ u.same j t guarded;
    }

    pub get-Untouched : (k : String) → Untouched w (store.get k w').1
    get-Untouched k = record {
      later = omega (arith, u.later, ex.get_later w' k);
      same = λ j t guarded. ex.get_shown w' k j t ∙ u.same j t guarded;
    }

    pub set-Untouched : (k v : String) (d : ℤ) → IsForeign k → Untouched w (store.set k v d w').1
    set-Untouched k v d foreign = record {
      later = omega (arith, u.later, ex.set_later w' k v d);
      same = λ j t guarded. ex.set_others w' k j v d t (foreign j guarded) ∙ u.same j t guarded;
    }

    pub delete-Untouched : (k : String) → IsForeign k → Untouched w (store.delete k w').1
    delete-Untouched k foreign = record {
      later = omega (arith, u.later, ex.delete_later w' k);
      same = λ j t guarded. ex.delete_others w' k j t (foreign j guarded) ∙ u.same j t guarded;
    }

-- ===== src/Dict/Laws.antt =====
-- What a lookup finds after each operation on a map.
use throttle.Prelude.{
  Bool-cases, inl, inr, ap, String, ◌≡◌, refl, Bool, [], ◌∷◌, Option, none, some, arith, ◌==◌,
  eq_iff, if◌then◌else◌, false,
}
use throttle.Dict.{Dict, lookup, delete, insert, delete_where}

module _ {ℓ} {V : Type ℓ} where
  pub lookup-delete :
      (k j : String) (m : Dict V) → lookup j (delete k m) ≡ (if k == j then none else lookup j m)
  unfolding lookup delete
  lookup-delete k j [] = ground arith
  lookup-delete k j ((i, v) ∷ m) =
      ground (arith, lookup-delete k j m, eq_iff i k, eq_iff i j, eq_iff k j)

  pub lookup-insert :
      (k j : String) (v : V) (m : Dict V)
      → lookup j (insert k v m) ≡ (if k == j then some v else lookup j m)
  unfolding lookup insert
  lookup-insert k j v m = ground (arith, lookup-delete k j m)

-- Each key stands once.
abbrev pub IsAbsent {ℓ} : {V : Type ℓ} → String → Dict V → Type 0
IsAbsent k [] = Unit {0}
IsAbsent k ((j, v) ∷ m) = ((j == k) ≡ false) × IsAbsent k m

abbrev pub IsDict {ℓ} : {V : Type ℓ} → Dict V → Type 0
IsDict [] = Unit {0}
IsDict ((j, v) ∷ m) = IsAbsent j m × IsDict m

module _ {ℓ} {V : Type ℓ} where
  lookup-IsAbsent : (k : String) (m : Dict V) → IsAbsent k m → lookup k m ≡ none
  unfolding lookup
  lookup-IsAbsent k [] h = refl
  lookup-IsAbsent k ((j, v) ∷ m) h = ground (arith, lookup-IsAbsent k m h.1)

  IsAbsent-delete : (j k : String) (m : Dict V) → IsAbsent j m → IsAbsent j (delete k m)
  unfolding delete
  IsAbsent-delete j k [] h = tt
  IsAbsent-delete j k ((i, v) ∷ m) h = elim (Bool-cases (i == k)) [
    | inl hit ↦ rw hit (IsAbsent-delete j k m h.1)
    | inr miss ↦ rw miss (h.0, IsAbsent-delete j k m h.1)
  ]

  IsAbsent-delete_self : (k : String) (m : Dict V) → IsAbsent k (delete k m)
  unfolding delete
  IsAbsent-delete_self k [] = tt
  IsAbsent-delete_self k ((i, v) ∷ m) = elim (Bool-cases (i == k)) [
    | inl hit ↦ rw hit (IsAbsent-delete_self k m)
    | inr miss ↦ rw miss (miss, IsAbsent-delete_self k m)
  ]

  IsAbsent-delete_where :
      (j : String) (test : V → Bool) (m : Dict V) → IsAbsent j m → IsAbsent j (delete_where test m)
  unfolding delete_where
  IsAbsent-delete_where j test [] h = tt
  IsAbsent-delete_where j test ((i, v) ∷ m) h = elim (Bool-cases (test v)) [
    | inl hit ↦ rw hit (IsAbsent-delete_where j test m h.1)
    | inr miss ↦ rw miss (h.0, IsAbsent-delete_where j test m h.1)
  ]

  pub IsDict-delete : (k : String) (m : Dict V) → IsDict m → IsDict (delete k m)
  unfolding delete
  IsDict-delete k [] h = tt
  IsDict-delete k ((i, v) ∷ m) h = elim (Bool-cases (i == k)) [
    | inl hit ↦ rw hit (IsDict-delete k m h.1)
    | inr miss ↦ rw miss (IsAbsent-delete i k m h.0, IsDict-delete k m h.1)
  ]

  pub IsDict-insert : (k : String) (v : V) (m : Dict V) → IsDict m → IsDict (insert k v m)
  unfolding insert
  IsDict-insert k v m h = (IsAbsent-delete_self k m, IsDict-delete k m h)

  pub IsDict-delete_where : (test : V → Bool) (m : Dict V) → IsDict m → IsDict (delete_where test m)
  unfolding delete_where
  IsDict-delete_where test [] h = tt
  IsDict-delete_where test ((i, v) ∷ m) h = elim (Bool-cases (test v)) [
    | inl hit ↦ rw hit (IsDict-delete_where test m h.1)
    | inr miss ↦ rw miss (IsAbsent-delete_where i test m h.0, IsDict-delete_where test m h.1)
  ]

  -- What is found, unless the test deletes it.
  abbrev pub unless : (V → Bool) → Option V → Option V
  unless test none = none
  unless test (some v) = if test v then none else some v

  pub lookup-delete_where :
      (k : String) (test : V → Bool) (m : Dict V)
      → IsDict m
      → lookup k (delete_where test m) ≡ unless test (lookup k m)
  unfolding lookup delete_where
  lookup-delete_where k test [] h = refl
  lookup-delete_where k test ((j, v) ∷ m) h = ground (
    arith,
    eq_iff j k,
    lookup-delete_where k test m h.1,
    lookup-IsAbsent j m h.0,
    ap (λ i. lookup i m) {x = j} {y = k},
  )

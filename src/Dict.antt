-- ===== src/Dict.antt =====
-- Go's maps with string keys, as association lists without repeated keys. The program never
-- depends on the order in which a map is ranged over.
pub mod Laws
use throttle.Prelude.{ℕ, suc, String, Bool, List, [], ◌∷◌, Option, none, some, ◌==◌, if◌then◌else◌}

abbrev pub Dict {ℓ} : Type ℓ → Type ℓ
Dict V = List (String × V)

module _ {ℓ} {V : Type ℓ} where
  -- `v, exists := m[k]`
  unfoldable pub lookup : String → Dict V → Option V
  lookup k [] = none
  lookup k ((j, v) ∷ m) = if j == k then some v else lookup k m

  -- `delete(m, k)`
  unfoldable pub delete : String → Dict V → Dict V
  delete k [] = []
  delete k ((j, v) ∷ m) = let rest = delete k m in if j == k then rest else (j, v) ∷ rest

  -- `m[k] = v`
  unfoldable pub insert : String → V → Dict V → Dict V
  unfolding delete
  insert k v m = (k, v) ∷ delete k m

  -- `for k, v := range m { if test(v) { delete(m, k) } }`
  unfoldable pub delete_where : (V → Bool) → Dict V → Dict V
  delete_where test [] = []
  delete_where test ((j, v) ∷ m) =
      let rest = delete_where test m in if test v then rest else (j, v) ∷ rest

  -- `for _, v := range m { if test(v) { count++ } }`
  unfoldable pub count : (V → Bool) → Dict V → ℕ
  count test [] = 0
  count test ((j, v) ∷ m) = let rest = count test m in if test v then suc rest else rest

-- ===== src/Prelude/Text.antt =====
-- Texts as keys: a fixed prefix before a variable text can be read back.
use Prim.Native.Nat.{compare, Ordering}
use Prim.Native.Char.{code}
use Prim.Native.String.{String, [], ◌∷◌, ◌++◌}
use Prim.Native.String.append
use mathlib.Core.Path.{◌≡◌, sym, ap, ◌∙◌}
use mathlib.Core.Logic.{◌≢◌}
use mathlib.Core.Bool.{Bool, true, false}
use native.Mathlib.Omega.{arith}
use text.Mathlib.TextLemmas.{cons-eq-cons}

-- The two texts differ at some place that both have.
abbrev pub clash : String → String → Bool
clash [] q = false
clash (c ∷ p) [] = false
clash (c ∷ p) (d ∷ q) = elim (compare (code c) (code d)) [ Ordering.eq ↦ clash p q | _ ↦ true ]

-- Such texts stay apart, whatever follows them.
pub append-ne-append_of_clash : (p q k j : String) → clash p q ≡ true → p ++ k ≢ q ++ j
append-ne-append_of_clash [] q k j h e = cc
append-ne-append_of_clash (c ∷ p) [] k j h e = cc
append-ne-append_of_clash (c ∷ p) (d ∷ q) k j h e =
    let heads_tails = cons-eq-cons.0 (sym (append.cons c p k) ∙ e ∙ append.cons d q j) in
    ground (
      arith,
      ap code heads_tails.0,
      λ (h' : clash p q ≡ true). append-ne-append_of_clash p q k j h' heads_tails.1,
    )

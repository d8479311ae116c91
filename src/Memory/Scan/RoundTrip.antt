-- ===== src/Memory/Scan/RoundTrip.antt =====
-- Printing an int64 and scanning the text.
use Prim.Native.Char.{code}
use Prim.Native.String.{String, [], ◌∷◌}
use native.Mathlib.Decide.{dec_lt}
use native.Mathlib.Nat.{le_of_lt}
use throttle.Prelude.{
  ℕ, zero, suc, ◌+◌, ◌*◌, ◌/◌, ◌%◌, ◌<◌, ◌≤◌, ◌≡◌, refl, ◌∙◌, ap, true, some, arith, lt→ltb, le→ltb,
  ◌-◌, false,
}
use throttle.Int.{ℤ, pos, negsuc, ◌-ℤ◌}
use throttle.Int64.{IsInt64, two_63}
use throttle.Memory.Scan.{
  digit, print_loop, print_int, is_space, skip_space, read_digits, read_number, read_signed,
  in_int64, scan_int, more_digits,
}

-- `n` has at most `f` digits before the last.
abbrev Fits : ℕ → ℕ → Type 0
Fits zero n = n < 10
Fits (suc f) n = Fits f (n / 10)

pub code-digit : (d : ℕ) → d < 10 → code (digit d) ≡ 48 + d
code-digit zero h = refl
code-digit (suc zero) h = refl
code-digit (suc (suc zero)) h = refl
code-digit (suc (suc (suc zero))) h = refl
code-digit (suc (suc (suc (suc zero)))) h = refl
code-digit (suc (suc (suc (suc (suc zero))))) h = refl
code-digit (suc (suc (suc (suc (suc (suc zero)))))) h = refl
code-digit (suc (suc (suc (suc (suc (suc (suc zero))))))) h = refl
code-digit (suc (suc (suc (suc (suc (suc (suc (suc zero)))))))) h = refl
code-digit (suc (suc (suc (suc (suc (suc (suc (suc (suc n))))))))) h = omega arith

cancel_48 : (c d : ℕ) → c ≡ 48 + d → c - 48 ≡ d
cancel_48 c d h = omega arith

read_digit :
    (acc d : ℕ) (s : String) → d < 10 → read_digits acc (digit d ∷ s) ≡ read_digits (acc * 10 + d) s
unfolding read_digits
read_digit acc d s h = ground (
  arith,
  code-digit d h,
  ap (λ (n : ℕ). read_digits (acc * 10 + n) s) (cancel_48 (code (digit d)) d (code-digit d h)),
)

read-print :
    (f n : ℕ) (out : String) → Fits f n → read_digits 0 (print_loop f n out) ≡ read_digits n out
unfolding print_loop
read-print zero n out h = read_digit 0 n out h ∙ ap (λ k. read_digits k out) (omega arith)
read-print (suc f) n out h = elim (dec_lt n 10) [
  | yes last ↦
      rw (lt→ltb n 10 last) (read_digit 0 n out last ∙ ap (λ k. read_digits k out) (omega arith))
  | no more ↦ rw (le→ltb n 10 (omega arith)) (
      read-print f (n / 10) (digit (n % 10) ∷ out) h
      ∙ read_digit (n / 10) (n % 10) out (omega arith)
      ∙ ap (λ k. read_digits k out) (omega arith))
]

-- What is printed begins with a digit.
print_shape :
    (f n : ℕ) (out : String)
    → Fits f n
    → (d : ℕ) × (rest : String) × (d < 10) × (print_loop f n out ≡ digit d ∷ rest)
unfolding print_loop
print_shape zero n out h = (n, out, h, refl)
print_shape (suc f) n out h = elim (dec_lt n 10) [
  | yes last ↦ (n, out, last, rw (lt→ltb n 10 last))
  | no more ↦
      let (d, rest, small, e) = print_shape f (n / 10) (digit (n % 10) ∷ out) h in
      (d, rest, small, rw (le→ltb n 10 (omega arith)) e)
]

read_number-print : (f n : ℕ) → Fits f n → read_number (print_loop f n []) ≡ some n
unfolding read_number
read_number-print f n h =
    let (d, rest, small, e) = print_shape f n [] h in
    rw e (ground (arith, code-digit d small, ap (read_digits 0) e, read-print f n [] h))

Fits-int64 : (n : ℕ) → n ≤ two_63 → Fits more_digits n
Fits-int64 n h = omega arith

not_space : (c : ℕ) → 48 ≤ c → c ≤ 57 → is_space c ≡ false
not_space c h k = ground arith

read_signed-digit :
    (d : ℕ) (rest : String)
    → d < 10
    → read_signed (skip_space (digit d ∷ rest)) ≡ in_int64 false (read_number (digit d ∷ rest))
unfolding read_signed skip_space
read_signed-digit d rest small = ground (arith, code-digit d small, not_space (code (digit d)))

read_signed-number :
    (text rest : String) (d : ℕ)
    → d < 10
    → text ≡ digit d ∷ rest
    → read_signed (skip_space text) ≡ in_int64 false (read_number text)
read_signed-number text rest d small e = rw e (read_signed-digit d rest small)

read_signed-minus :
    (text : String) → read_signed (skip_space ("-" ∷ text)) ≡ in_int64 true (read_number text)
unfolding read_signed skip_space
read_signed-minus text = refl

positive : (n : ℕ) → n < two_63 → in_int64 false (some n) ≡ some (pos n)
positive n h = ground arith

negative : (n : ℕ) → suc n ≤ two_63 → in_int64 true (some (suc n)) ≡ some (negsuc n)
unfolding ◌-ℤ◌
negative n h = ground arith

-- Every int64 that was printed is scanned as itself.
pub scan-print : (z : ℤ) → IsInt64 z → scan_int (print_int z) ≡ some z
unfolding scan_int print_int
scan-print (pos n) h =
    let fits = Fits-int64 n (le_of_lt h.0) in
    let (d, rest, small, e) = print_shape more_digits n [] fits in
    read_signed-number (print_loop more_digits n []) rest d small e
    ∙ ap (in_int64 false) (read_number-print more_digits n fits)
    ∙ positive n h.0
scan-print (negsuc n) h =
    read_signed-minus (print_loop more_digits (suc n) [])
    ∙ ap (in_int64 true) (read_number-print more_digits (suc n) (Fits-int64 (suc n) h.1))
    ∙ negative n h.1

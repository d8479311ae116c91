-- ===== src/Memory/Scan.antt =====
-- Package fmt as memory.go uses it: an int64 printed by `Sprintf("%d")` and read by `Sscanf("%d")`.
pub mod RoundTrip
use Prim.Native.Char.{Char, code}
use Prim.Native.String.{[], ◌∷◌}
use throttle.Prelude.{
  ℕ, zero, suc, ◌+◌, ◌-◌, ◌*◌, ◌/◌, ◌%◌, String, Bool, true, false, not, ◌&&◌, ◌||◌, Option, none,
  some, ltb, leb, if◌then◌else◌,
}
use throttle.Int.{ℤ, pos, negsuc, ◌-ℤ◌}
use throttle.Int64.{two_63}

abbrev pub digit : ℕ → Char
digit zero = "0"
digit (suc zero) = "1"
digit (suc (suc zero)) = "2"
digit (suc (suc (suc zero))) = "3"
digit (suc (suc (suc (suc zero)))) = "4"
digit (suc (suc (suc (suc (suc zero))))) = "5"
digit (suc (suc (suc (suc (suc (suc zero)))))) = "6"
digit (suc (suc (suc (suc (suc (suc (suc zero))))))) = "7"
digit (suc (suc (suc (suc (suc (suc (suc (suc zero)))))))) = "8"
digit _ = "9"

-- The digits of `n` before `out`; the fuel counts the digits before the last.
unfoldable pub print_loop : ℕ → ℕ → String → String
print_loop zero n out = digit n ∷ out
print_loop (suc f) n out =
    let more = print_loop f (n / 10) (digit (n % 10) ∷ out) in
    if ltb n 10 then digit n ∷ out else more

-- An int64 has at most 19 digits.
abbrev pub more_digits : ℕ
more_digits = 19

unfoldable pub print_int : ℤ → String
print_int (pos n) = print_loop more_digits n []
print_int (negsuc n) = "-" ∷ print_loop more_digits (suc n) []

abbrev pub is_code : ℕ → ℕ → Bool
is_code c d = leb d c && leb c d

abbrev pub is_digit : ℕ → Bool
is_digit c = leb 48 c && leb c 57

-- The spaces that `Sscanf` skips; a line feed is an error instead.
abbrev pub is_space : ℕ → Bool
is_space c =
    (leb c 32 && (leb 32 c || (leb 9 c && leb c 13 && not (leb 10 c && leb c 10))))
    || (leb 133 c
        && (leb c 133
            || is_code c 160
            || is_code c 5760
            || (leb 8192 c && leb c 8202)
            || (leb 8232 c && leb c 8233)
            || is_code c 8239
            || is_code c 8287
            || is_code c 12288))

unfoldable pub skip_space : String → String
skip_space [] = []
skip_space (c ∷ s) = let rest = skip_space s in if is_space (code c) then rest else c ∷ s

-- The number that the digits in front spell, after the number `n`; what follows them is left.
unfoldable pub read_digits : ℕ → String → ℕ
read_digits n [] = n
read_digits n (c ∷ s) =
    let more = read_digits (n * 10 + (code c - 48)) s in if is_digit (code c) then more else n

unfoldable pub read_number : String → Option ℕ
unfolding read_digits
read_number [] = none
read_number (c ∷ s) = if is_digit (code c) then some (read_digits 0 (c ∷ s)) else none

-- `ParseInt` refuses what an int64 does not hold.
abbrev pub in_int64 : Bool → Option ℕ → Option ℤ
in_int64 negative none = none
in_int64 false (some n) = if ltb n two_63 then some (pos n) else none
in_int64 true (some n) = if leb n two_63 then some (pos 0 -ℤ pos n) else none

unfoldable pub read_signed : String → Option ℤ
unfolding read_number
read_signed [] = none
read_signed (c ∷ s) =
    if is_code (code c) 45
    then in_int64 true (read_number s)
    else if is_code (code c) 43
    then in_int64 false (read_number s)
    else in_int64 false (read_number (c ∷ s))

unfoldable pub scan_int : String → Option ℤ
scan_int s = read_signed (skip_space s)

-- ===== src/Codec/Marks.antt =====
-- A codec for tests: lists of integers in binary digits, the lowest first, each with a sign behind it.
use Prim.Native.Char.{code}
use Prim.Native.String.{[], ◌∷◌}
use throttle.Prelude.{
  ℕ, zero, suc, ◌+◌, ◌*◌, ◌/◌, ◌%◌, ◌≤◌, String, ◌≡◌, refl, ap, ◌∙◌, List, if◌then◌else◌, ltb,
  arith, Bool-cases, inl, inr,
}
use throttle.Int.{ℤ, pos, negsuc}
use throttle.Exec.{ok}
use throttle.Codec.{Codec, IsCodecAt}

abbrev bit : ℕ → String → String
bit zero s = "0" ∷ s
bit (suc n) s = "1" ∷ s

-- The digits of `n` before a text, of as many as the fuel has.
abbrev digits : ℕ → ℕ → String → String
digits zero n s = s
digits (suc fuel) n s = let rest = digits fuel (n / 2) s in if ltb 0 n then bit (n % 2) rest else s

abbrev encode : List ℤ → String
encode List.[] = []
encode (List.◌∷◌ (pos n) xs) = digits n n ("+" ∷ encode xs)
encode (List.◌∷◌ (negsuc n) xs) = digits n n ("-" ∷ encode xs)

abbrev grow : ℕ → List ℤ → List ℤ
grow b List.[] = List.[]
grow b (List.◌∷◌ (pos n) xs) = List.◌∷◌ (pos (n * 2 + b)) xs
grow b (List.◌∷◌ (negsuc n) xs) = List.◌∷◌ (negsuc (n * 2 + b)) xs

abbrev decode : String → List ℤ
decode [] = List.[]
decode (c ∷ s) =
    let xs = decode s in
    if ltb 48 (code c)
    then grow 1 xs
    else if ltb 47 (code c)
    then grow 0 xs
    else if ltb 43 (code c)
    then List.◌∷◌ (negsuc 0) xs
    else List.◌∷◌ (pos 0) xs

decode-bit : (b : ℕ) (s : String) → b ≤ 1 → decode (bit b s) ≡ grow b (decode s)
decode-bit zero s le = refl
decode-bit (suc b) s le = ap (λ c. grow c (decode s)) (omega arith)

module _ (sign : ℕ → ℤ)
    (grows : (b n : ℕ) (xs : List ℤ)
      → grow b (List.◌∷◌ (sign n) xs) ≡ List.◌∷◌ (sign (n * 2 + b)) xs) where
  decode-digits :
      (fuel n : ℕ) (s : String) (xs : List ℤ)
      → n ≤ fuel
      → decode s ≡ List.◌∷◌ (sign 0) xs
      → decode (digits fuel n s) ≡ List.◌∷◌ (sign n) xs
  decode-digits zero n s xs enough begins = begins ∙ ap (λ k. List.◌∷◌ (sign k) xs) (omega arith)
  decode-digits (suc fuel) n s xs enough begins = elim (Bool-cases (ltb 0 n)) [
    | inl more ↦
        let half : n / 2 ≤ fuel = ground arith in
        let rest = decode-digits fuel (n / 2) s xs half begins in
        rw (more, decode-bit (n % 2) (digits fuel (n / 2) s) (omega arith), rest, grows)
          (ap (λ k. List.◌∷◌ (sign k) xs) (omega arith))
    | inr done ↦ rw (done, begins) (ap (λ k. List.◌∷◌ (sign k) xs) (ground arith))
  ]

decode-encode : (xs : List ℤ) → decode (encode xs) ≡ xs
decode-encode List.[] = refl
decode-encode (List.◌∷◌ (pos n) xs) =
    decode-digits pos (λ b k ys. refl) n n ("+" ∷ encode xs) xs (omega arith)
      (ap (List.◌∷◌ (pos 0)) (decode-encode xs))
decode-encode (List.◌∷◌ (negsuc n) xs) =
    decode-digits negsuc (λ b k ys. refl) n n ("-" ∷ encode xs) xs (omega arith)
      (ap (List.◌∷◌ (negsuc 0)) (decode-encode xs))

module _ {A : Type 0} (numbers : A → List ℤ) (build : List ℤ → A) where
  -- The states of a type that lists of numbers stand for.
  abbrev pub marks_codec : Codec A
  marks_codec = record {
    marshal = λ a. ok ("[" ∷ encode (numbers a));
    unmarshal = λ s. ok (build (rest s));
  }
    where
      rest : String → List ℤ
      rest [] = List.[]
      rest (c ∷ s) = decode s

  pub marks-IsCodecAt : ((a : A) → build (numbers a) ≡ a) → (a : A) → IsCodecAt marks_codec a
  marks-IsCodecAt same a = record {
    text = "[" ∷ encode (numbers a);
    marshals = refl;
    nonempty = λ e. cc;
    unmarshals = ap ok (ap build (decode-encode (numbers a)) ∙ same a);
  }

-- ===== src/Programs/Csv/Digits.antt =====
-- Decimal numbers, written and read back.
use timing_proxy.Base.{
  ℕ, zero, suc, ◌+◌, ◌*◌, ◌/◌, ◌%◌, ◌^◌, ◌≤◌, ◌<◌, ◌≡◌, refl, sym, ap, ◌∙◌, arith, pos, true, false,
  inl, inr, Bool-cases, List, [], ◌∷◌, ◌++◌, append-nil, append_assoc, ok, throws, out_of_range,
  leb, ltb, ◌==◌, if◌then◌else◌,
}
use timing_proxy.Proxy.Text.{is_digit, is_space, digits_value, stoi}
use timing_proxy.Programs.Csv.{digits, decimal}

-- What follows the digits.
abbrev pub skip_digits : List ℕ → List ℕ
skip_digits [] = []
skip_digits (c ∷ cs) = if is_digit c then skip_digits cs else c ∷ cs

is_digit-digit : (d : ℕ) → d < 10 → is_digit (48 + d) ≡ true
is_digit-digit d h = ground arith

digits_value-digit :
    (n d : ℕ) (rest : List ℕ)
    → d < 10
    → digits_value n ((48 + d) ∷ rest) ≡ digits_value (n * 10 + d) rest
digits_value-digit n d rest h =
    rw (is_digit-digit d h) (ap (λ (k : ℕ). digits_value k rest) (omega arith))

pub digits_value-digits :
    (width n : ℕ) (rest : List ℕ)
    → n < 10 ^ width
    → digits_value 0 (digits width n ++ rest) ≡ digits_value n rest
digits_value-digits zero n rest h = ap (λ (k : ℕ). digits_value k rest) (omega arith)
digits_value-digits (suc width) n rest h = elim (Bool-cases (ltb n 10)) [
  | inl small ↦ rw small (
      digits_value-digit 0 n rest (ground arith)
      ∙ ap (λ (k : ℕ). digits_value k rest) (omega arith))
  | inr large ↦
      rw (large, append_assoc (digits width (n / 10)) ((48 + n % 10) ∷ []) rest)
        (digits_value-digits width (n / 10) ((48 + n % 10) ∷ rest) (omega arith)
          ∙ digits_value-digit (n / 10) (n % 10) rest (omega arith)
          ∙ ap (λ (k : ℕ). digits_value k rest) (omega arith))
]

skip_digits-digits :
    (width n : ℕ) (rest : List ℕ)
    → n < 10 ^ width
    → skip_digits (digits width n ++ rest) ≡ skip_digits rest
skip_digits-digits zero n rest h = refl
skip_digits-digits (suc width) n rest h = elim (Bool-cases (ltb n 10)) [
  | inl small ↦ rw (small, is_digit-digit n (ground arith)) refl
  | inr large ↦
      rw (large, append_assoc (digits width (n / 10)) ((48 + n % 10) ∷ []) rest)
        (skip_digits-digits width (n / 10) ((48 + n % 10) ∷ rest) (omega arith)
          ∙ rw (is_digit-digit (n % 10) (omega arith)) refl)
]

-- A text of digits begins with one.
pub data Begins : List ℕ → Type 0 where
  digit_first : (d : ℕ) (cs : List ℕ) → d < 10 → Begins ((48 + d) ∷ cs)

Begins-append : {xs : List ℕ} (ys : List ℕ) → Begins xs → Begins (xs ++ ys)
Begins-append ys (digit_first d cs h) = digit_first d (cs ++ ys) h

digits-Begins : (width n : ℕ) → n < 10 ^ suc width → Begins (digits (suc width) n)
digits-Begins zero n h =
    let small : ltb n 10 ≡ true = ground arith in rw small (digit_first n [] (omega arith))
digits-Begins (suc width) n h = elim (Bool-cases (ltb n 10)) [
  | inl small ↦ rw small (digit_first n [] (ground arith))
  | inr large ↦
      rw large (Begins-append ((48 + n % 10) ∷ []) (digits-Begins width (n / 10) (omega arith)))
]

stoi-Begins :
    (text : List ℕ)
    → Begins text
    → digits_value 0 text ≤ 2147483647
    → stoi text ≡ ok (pos (digits_value 0 text))
stoi-Begins text (digit_first d cs h) bound =
    let no_space : is_space (48 + d) ≡ false = ground arith in
    let no_minus : (48 + d == 45) ≡ false = ground arith in
    let no_plus : (48 + d == 43) ≡ false = ground arith in
    let fits : leb (digits_value 0 ((48 + d) ∷ cs)) 2147483647 ≡ true = ground arith in
    rw (no_space, no_minus, no_plus, is_digit-digit d h, rw (is_digit-digit d h) at fits) refl

stoi-Begins_large :
    (text : List ℕ)
    → Begins text
    → 2147483647 < digits_value 0 text
    → stoi text ≡ throws (out_of_range "stoi")
stoi-Begins_large text (digit_first d cs h) bound =
    let no_space : is_space (48 + d) ≡ false = ground arith in
    let no_minus : (48 + d == 45) ≡ false = ground arith in
    let no_plus : (48 + d == 43) ≡ false = ground arith in
    let over : leb (digits_value 0 ((48 + d) ∷ cs)) 2147483647 ≡ false = ground arith in
    rw (no_space, no_minus, no_plus, is_digit-digit d h, rw (is_digit-digit d h) at over) refl

digits_value-alone : (width n : ℕ) → n < 10 ^ width → digits_value 0 (digits width n) ≡ n
digits_value-alone width n h =
    ap (digits_value 0) (sym (append-nil (digits width n))) ∙ digits_value-digits width n [] h

-- std::stoi on a number of 64 bits, written in decimal.
pub stoi-decimal : (n : ℕ) → n ≤ 2147483647 → stoi (decimal n) ≡ ok (pos n)
unfolding decimal
stoi-decimal n h =
    let value = digits_value-alone 20 n (omega arith) in
    stoi-Begins (digits 20 n) (digits-Begins 19 n (omega arith)) (omega (arith, value))
    ∙ ap (λ (k : ℕ). ok (pos k)) value

pub stoi-decimal_large :
    (n : ℕ) → 2147483647 < n → n < 2 ^ 64 → stoi (decimal n) ≡ throws (out_of_range "stoi")
unfolding decimal
stoi-decimal_large n large h =
    let value = digits_value-alone 20 n (omega arith) in
    stoi-Begins_large (digits 20 n) (digits-Begins 19 n (omega arith)) (omega (arith, value))

pub digits_value-decimal :
    (n : ℕ) (rest : List ℕ) → n < 2 ^ 64 → digits_value 0 (decimal n ++ rest) ≡ digits_value n rest
unfolding decimal
digits_value-decimal n rest h = digits_value-digits 20 n rest (omega arith)

pub skip_digits-decimal :
    (n : ℕ) (rest : List ℕ) → n < 2 ^ 64 → skip_digits (decimal n ++ rest) ≡ skip_digits rest
unfolding decimal
skip_digits-decimal n rest h = skip_digits-digits 20 n rest (omega arith)

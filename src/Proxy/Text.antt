-- ===== src/Proxy/Text.antt =====
-- The text that the proxy reads and prints: std::string and std::stoi as TimingProxy.cpp
-- uses them. Characters are bytes.
use timing_proxy.Base.{
  ℕ, zero, suc, ◌+◌, ◌-◌, ◌*◌, ◌%◌, ℤ, pos, negsuc, Bool, false, ◌&&◌, ◌||◌, List, [], ◌∷◌, Option,
  none, some, Outcome, ok, throws, invalid_argument, out_of_range, leb, ◌==◌, if◌then◌else◌,
}

abbrev pub newline : ℕ
newline = 10

-- `std::string(buf)`: the bytes before the first zero.
abbrev pub c_string : List ℕ → List ℕ
c_string [] = []
c_string (x ∷ xs) = if x == 0 then [] else x ∷ c_string xs

abbrev pub onto_head : ℕ → Option (List ℕ × List ℕ) → Option (List ℕ × List ℕ)
onto_head x none = none
onto_head x (some (head, tail)) = some (x ∷ head, tail)

-- `str.find("\n")` with the two calls of `substr`: what stands before and after the first newline.
abbrev pub find_line : List ℕ → Option (List ℕ × List ℕ)
find_line [] = none
find_line (x ∷ xs) = if x == newline then some ([], xs) else onto_head x (find_line xs)

abbrev pub is_digit : ℕ → Bool
is_digit c = leb 48 c && leb c 57

abbrev pub is_space : ℕ → Bool
is_space c = (c == 32) || (leb 9 c && leb c 13)

-- The number that the leading digits write, from the value read so far.
abbrev pub digits_value : ℕ → List ℕ → ℕ
digits_value n [] = n
digits_value n (c ∷ cs) = if is_digit c then digits_value (n * 10 + (c - 48)) cs else n

abbrev pub starts_with_digit : List ℕ → Bool
starts_with_digit [] = false
starts_with_digit (c ∷ cs) = is_digit c

-- The digits after the sign, and the bound on the absolute value.
abbrev pub stoi_digits : (ℕ → ℤ) → ℕ → List ℕ → Outcome ℤ
stoi_digits signed bound text =
    if starts_with_digit text
    then (if leb (digits_value 0 text) bound
        then ok (signed (digits_value 0 text))
        else throws (out_of_range "stoi"))
    else throws (invalid_argument "stoi")

abbrev pub minus : ℕ → ℤ
minus zero = pos 0
minus (suc n) = negsuc n

abbrev pub stoi_signed : List ℕ → Outcome ℤ
stoi_signed [] = throws (invalid_argument "stoi")
stoi_signed (c ∷ cs) =
    if c == 45
    then stoi_digits minus 2147483648 cs
    else if c == 43
    then stoi_digits pos 2147483647 cs
    else stoi_digits pos 2147483647 (c ∷ cs)

-- `std::stoi` skips white space and ignores what follows the digits.
abbrev pub stoi : List ℕ → Outcome ℤ
stoi [] = throws (invalid_argument "stoi")
stoi (c ∷ cs) = if is_space c then stoi cs else stoi_signed (c ∷ cs)

-- The conversion of the port's `int` to `uint16_t`.
abbrev pub to_uint16 : ℤ → ℕ
to_uint16 (pos n) = n % 65536
to_uint16 (negsuc n) = 65535 - n % 65536

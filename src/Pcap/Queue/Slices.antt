-- ===== src/Pcap/Queue/Slices.antt =====
-- The part of a list between two indices.
use timing_proxy.Base.{
  ℕ, zero, suc, ◌+◌, ◌<◌, ◌≤◌, ◌≡◌, refl, ap, List, [], ◌∷◌, ◌++◌, some, get_elem?, set, length,
  arith,
}

module _ {ℓ} {A : Type ℓ} where
  abbrev pub slice : List A → ℕ → ℕ → List A
  slice [] i j = []
  slice (x ∷ xs) i zero = []
  slice (x ∷ xs) zero (suc j) = x ∷ slice xs zero j
  slice (x ∷ xs) (suc i) (suc j) = slice xs i j

  pub slice-empty : (xs : List A) (i : ℕ) → slice xs i i ≡ []
  slice-empty [] i = refl
  slice-empty (x ∷ xs) zero = refl
  slice-empty (x ∷ xs) (suc i) = slice-empty xs i

  slice-zero : (xs : List A) → slice xs 0 0 ≡ []
  slice-zero xs = slice-empty xs 0

  pub length-slice : (xs : List A) (i j : ℕ) → i ≤ j → j ≤ length xs → length (slice xs i j) + i ≡ j
  length-slice [] i j h k = omega arith
  length-slice (x ∷ xs) i zero h k = omega arith
  length-slice (x ∷ xs) zero (suc j) h k =
      omega (arith, length-slice xs zero j (omega arith) (omega arith))
  length-slice (x ∷ xs) (suc i) (suc j) h k =
      omega (arith, length-slice xs i j (omega arith) (omega arith))

  -- Writing just behind a slice extends it.
  pub slice-set :
      (xs : List A) (i j : ℕ) (v : A)
      → i ≤ j
      → j < length xs
      → slice (set xs j v) i (suc j) ≡ slice xs i j ++ v ∷ []
  slice-set [] i j v h k = elim k [ ]
  slice-set (x ∷ xs) zero zero v h k = ap (◌∷◌ v) (slice-zero xs)
  slice-set (x ∷ xs) (suc i) zero v h k = elim h [ ]
  slice-set (x ∷ xs) zero (suc j) v h k =
      ap (◌∷◌ x) (slice-set xs zero j v (omega arith) (omega arith))
  slice-set (x ∷ xs) (suc i) (suc j) v h k = slice-set xs i j v (omega arith) (omega arith)

  -- The first element of a slice, and the rest.
  slice-cons :
      (xs : List A) (i j : ℕ) (x : A)
      → i < j
      → j ≤ length xs
      → get_elem? xs i ≡ some x
      → slice xs i j ≡ x ∷ slice xs (suc i) j
  slice-cons [] i zero x h k e = elim h [ ]
  slice-cons [] i (suc j) x h k e = elim k [ ]
  slice-cons (y ∷ xs) i zero x h k e = elim h [ ]
  slice-cons (y ∷ xs) zero (suc j) x h k e = cc
  slice-cons (y ∷ xs) (suc i) (suc j) x h k e = slice-cons xs i j x (omega arith) (omega arith) e

  -- The same with the source's `+ 1`.
  pub slice-set_next :
      (xs : List A) (i j : ℕ) (v : A)
      → i ≤ j
      → j < length xs
      → slice (set xs j v) i (j + 1) ≡ slice xs i j ++ v ∷ []
  slice-set_next xs i j v h k = let e : j + 1 ≡ suc j = omega arith in rw e (slice-set xs i j v h k)

  pub slice-cons_next :
      (xs : List A) (i j : ℕ) (x : A)
      → i < j
      → j ≤ length xs
      → get_elem? xs i ≡ some x
      → slice xs i j ≡ x ∷ slice xs (i + 1) j
  slice-cons_next xs i j x h k e =
      let next : i + 1 ≡ suc i = omega arith in rw next (slice-cons xs i j x h k e)

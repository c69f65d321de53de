-- ===== src/Packet/Memory/Holds.antt =====
-- A run of bytes that stands in memory, and the words that loads find in it.
use timing_proxy.Base.{
  ℕ, zero, suc, ◌+◌, ◌*◌, ◌/◌, ◌%◌, ◌<◌, ◌≡◌, refl, List, [], ◌∷◌, ◌++◌, some, get_elem?, length,
  ok, or_fault, arith, ap, sym, ◌∙◌, subst,
}
use timing_proxy.Packet.Memory.{Memory, load8, load16, load32, load_bytes, ntohs, ntohl}

-- The bytes `xs` stand at the address `q`.
abbrev pub Holds : Memory → ℕ → List ℕ → Type 0
Holds m q xs = (i b : ℕ) → get_elem? xs i ≡ some b → get_elem? m (q + i) ≡ some b

get_elem?-append_left :
    (xs ys : List ℕ) (i b : ℕ) → get_elem? xs i ≡ some b → get_elem? (xs ++ ys) i ≡ some b
get_elem?-append_left [] ys i b h = cc
get_elem?-append_left (x ∷ xs) ys zero b h = h
get_elem?-append_left (x ∷ xs) ys (suc i) b h = get_elem?-append_left xs ys i b h

pub get_elem?-append_right :
    (xs ys : List ℕ) (i : ℕ) → get_elem? (xs ++ ys) (length xs + i) ≡ get_elem? ys i
get_elem?-append_right [] ys i = let e : 0 + i ≡ i = omega arith in ap (get_elem? ys) e
get_elem?-append_right (x ∷ xs) ys i =
    let e : suc (length xs) + i ≡ suc (length xs + i) = omega arith in
    ap (get_elem? (x ∷ (xs ++ ys))) e ∙ get_elem?-append_right xs ys i

pub Holds-left : (m : Memory) (q : ℕ) (xs ys : List ℕ) → Holds m q (xs ++ ys) → Holds m q xs
Holds-left m q xs ys h i b e = h i b (get_elem?-append_left xs ys i b e)

pub Holds-right :
    (m : Memory) (q : ℕ) (xs ys : List ℕ) → Holds m q (xs ++ ys) → Holds m (q + length xs) ys
Holds-right m q xs ys h i b e =
    let e' : q + length xs + i ≡ q + (length xs + i) = omega arith in
    ap (get_elem? m) e' ∙ h (length xs + i) b (get_elem?-append_right xs ys i ∙ e)

pub Holds-self : (xs : List ℕ) → Holds xs 0 xs
Holds-self xs i b e = let e' : 0 + i ≡ i = omega arith in ap (get_elem? xs) e' ∙ e

-- A 16-bit number as the machine loads it from its two bytes in network order.
abbrev pub swapped : ℕ → ℕ
swapped v = v / 256 + 256 * (v % 256)

abbrev pub swapped32 : ℕ → ℕ
swapped32 v = swapped (v / 65536) + 65536 * swapped (v % 65536)

pub ntohs-swapped : (v : ℕ) → v < 65536 → ntohs (swapped v) ≡ v
unfolding ntohs
ntohs-swapped v h = omega arith

pub ntohl-swapped : (v : ℕ) → v < 4294967296 → ntohl (swapped32 v) ≡ v
unfolding ntohl
ntohl-swapped v h = omega arith

module _ (m : Memory) (q : ℕ) (xs : List ℕ) (h : Holds m q xs) where
  pub load8-Holds : (i b : ℕ) → get_elem? xs i ≡ some b → load8 m (some q) i ≡ ok b
  load8-Holds i b e = ap or_fault (h i b e)

  load16-pair :
      (i b c : ℕ)
      → get_elem? xs i ≡ some b
      → get_elem? xs (i + 1) ≡ some c
      → load16 m (some q) i ≡ ok (b + 256 * c)
  unfolding load16
  load16-pair i b c e f = rw (load8-Holds i b e, load8-Holds (i + 1) c f)

  pub load16-Holds :
      (i v : ℕ)
      → get_elem? xs i ≡ some (v / 256)
      → get_elem? xs (i + 1) ≡ some (v % 256)
      → load16 m (some q) i ≡ ok (swapped v)
  load16-Holds i v = load16-pair i (v / 256) (v % 256)

  pub load32-Holds :
      (i v : ℕ)
      → get_elem? xs i ≡ some (v / 65536 / 256)
      → get_elem? xs (i + 1) ≡ some (v / 65536 % 256)
      → get_elem? xs (i + 2) ≡ some (v % 65536 / 256)
      → get_elem? xs (i + 2 + 1) ≡ some (v % 65536 % 256)
      → load32 m (some q) i ≡ ok (swapped32 v)
  unfolding load32
  load32-Holds i v e0 e1 e2 e3 =
      rw (load16-Holds i (v / 65536) e0 e1, load16-Holds (i + 2) (v % 65536) e2 e3)

  pub load32-bytes :
      (i b c d e : ℕ)
      → get_elem? xs i ≡ some b
      → get_elem? xs (i + 1) ≡ some c
      → get_elem? xs (i + 2) ≡ some d
      → get_elem? xs (i + 2 + 1) ≡ some e
      → load32 m (some q) i ≡ ok (b + 256 * c + 65536 * (d + 256 * e))
  unfolding load32
  load32-bytes i b c d e e0 e1 e2 e3 = rw (load16-pair i b c e0 e1, load16-pair (i + 2) d e e2 e3)

-- A whole field.
pub load_bytes-Holds :
    (m : Memory) (q i : ℕ) (bs : List ℕ)
    → Holds m (q + i) bs
    → load_bytes m (some q) i (length bs) ≡ ok bs
unfolding load_bytes
load_bytes-Holds m q i [] h = refl
load_bytes-Holds m q i (b ∷ bs) h =
    let e : q + i + 0 ≡ q + i = omega arith in
    let e' : q + i + 1 ≡ q + (i + 1) = omega arith in
    let first : get_elem? m (q + i) ≡ some b = ap (get_elem? m) (sym e) ∙ h 0 b refl in
    rw (
      first,
      load_bytes-Holds m q (i + 1) bs
          (subst (λ (n : ℕ). Holds m n bs) e' (Holds-right m (q + i) (b ∷ []) bs h)),
    )

-- An offset from the first byte is an address.
pub load16-from_zero : (m : Memory) (i : ℕ) → load16 m (some 0) i ≡ load16 m (some i) 0
unfolding load16
load16-from_zero m i =
    let e : 0 + i ≡ i + 0 = omega arith in
    let e' : 0 + (i + 1) ≡ i + (0 + 1) = omega arith in rw (e, e')

-- ===== src/Socket/Kernel/Compared.antt =====
-- Bytes that a comparison has found behind a pointer.
use timing_proxy.Base.{
  ℕ, zero, suc, ◌+◌, ◌≡◌, ap, ◌∙◌, arith, refl, Bool, true, false, ◌&&◌, ok-injective, List, [],
  ◌∷◌, Option, none, some, get_elem?, length, ok, or_fault, >>=-returned, ◌==◌, ==_iff,
}
use timing_proxy.Packet.Memory.{Memory, Pointer, load8, load_bytes}
use timing_proxy.Pcap.Packets.{same_bytes}

-- The bytes `xs` stand in memory from the distance `j` behind a pointer on.
abbrev pub StandsAfter : Memory → Pointer → ℕ → List ℕ → Type 0
StandsAfter m pointer j xs =
    (i b : ℕ)
    → get_elem? xs i ≡ some b
    → (p : ℕ) × (pointer ≡ some p) × (get_elem? m (p + (j + i)) ≡ some b)

or_fault-ok : {A : Type 0} (o : Option A) (a : A) → or_fault o ≡ ok a → o ≡ some a
or_fault-ok none a h = cc
or_fault-ok (some b) a h = cc

load8-stands :
    (m : Memory) (pointer : Pointer) (j b : ℕ)
    → load8 m pointer j ≡ ok b
    → (p : ℕ) × (pointer ≡ some p) × (get_elem? m (p + j) ≡ some b)
load8-stands m none j b h = cc
load8-stands m (some p) j b h = (p, refl, or_fault-ok (get_elem? m (p + j)) b h)

both_true : (a b : Bool) → (a && b) ≡ true → (a ≡ true) × (b ≡ true)
both_true true b h = (refl, h)
both_true false b h = cc

-- The first byte of what was loaded and compared, and the rest.
both_parts :
    (m : Memory) (pointer : Pointer) (j x : ℕ) (xs sent : List ℕ)
    → load_bytes m pointer j (suc (length xs)) ≡ ok sent
    → same_bytes sent (x ∷ xs) ≡ true
    → (c : ℕ) × (cs : List ℕ) × (load8 m pointer j ≡ ok c)
      × (load_bytes m pointer (j + 1) (length xs) ≡ ok cs)
      × ((c == x) ≡ true)
      × (same_bytes cs xs ≡ true)
unfolding load_bytes same_bytes
both_parts m pointer j x xs sent h same =
    let (c, first, h1) = >>=-returned (load8 m pointer j) _ h in
    let (cs, rest, h2) = >>=-returned (load_bytes m pointer (j + 1) (length xs)) _ h1 in
    let same' : ((c == x) && same_bytes cs xs) ≡ true =
      ap (λ (l : List ℕ). same_bytes l (x ∷ xs)) (ok-injective {a = c ∷ cs} h2) ∙ same in
    let (equal, more) = both_true (c == x) (same_bytes cs xs) same' in
    (c, cs, first, rest, equal, more)

-- If the bytes loaded behind a pointer are the same as `xs`, then `xs` stand there.
pub load_bytes-same :
    (m : Memory) (pointer : Pointer) (j : ℕ) (xs sent : List ℕ)
    → load_bytes m pointer j (length xs) ≡ ok sent
    → same_bytes sent xs ≡ true
    → StandsAfter m pointer j xs
unfolding load_bytes same_bytes
load_bytes-same m pointer j [] sent h same i b at = cc
load_bytes-same m pointer j (x ∷ xs) sent h same zero b at =
    let (c, cs, first, rest, equal, more) = both_parts m pointer j x xs sent h same in
    let (p, here, byte) = load8-stands m pointer j c first in
    (p, here, ap (get_elem? m) (omega arith) ∙ byte ∙ ap some ((==_iff c x).0 equal) ∙ at)
load_bytes-same m pointer j (x ∷ xs) sent h same (suc i) b at =
    let (c, cs, first, rest, equal, more) = both_parts m pointer j x xs sent h same in
    let (p, here, byte) = load_bytes-same m pointer (j + 1) xs cs rest more i b at in
    (p, here, ap (get_elem? m) (omega arith) ∙ byte)

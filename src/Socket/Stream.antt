-- ===== src/Socket/Stream.antt =====
-- What the peer of a socket receives: the bytes that `send` accepted, read off the calls made.
use timing_proxy.Base.{
  ℕ, zero, suc, ◌+◌, ◌≤◌, ◌<◌, ◌≡◌, refl, sym, ap, ◌∙◌, arith, ℤ, is_negative, to_size, same_int,
  pos, negsuc, true, false, List, [], ◌∷◌, ◌++◌, append-nil, append_assoc, length, take, drop,
  length-drop, take-append-drop, Outcome, ok, throws, Exception, ◌==◌, if◌then◌else◌,
}
use timing_proxy.Os.Calls.{Call, Reply, Trace, System, send}
use timing_proxy.Os.Io.{Io, after}

abbrev pub accepted : ℤ → Call × Reply → List ℕ
accepted sock (send s bytes, reply) =
    if same_int s sock then take (to_size reply.value) bytes else []
accepted sock (_, reply) = []

abbrev pub stream : ℤ → Trace → List ℕ
stream sock [] = []
stream sock (x ∷ w) = stream sock w ++ accepted sock x

-- What POSIX says of `send`: it accepts no more than it is given, and something if it does not fail.
abbrev pub SendsSome : System → Type 0
SendsSome system =
    (w : Trace) (sock : ℤ) (bytes : List ℕ)
    → let sent = (system w (send sock bytes)).value in
      is_negative sent ≡ false
      → (to_size sent ≤ length bytes) × (0 < length bytes → 0 < to_size sent)

-- A run that sent all the bytes, or threw when it had sent the first ones.
pub data Delivered {ℓ} {A : Type ℓ} (sock : ℤ) (w : Trace) (bytes : List ℕ)
    : Outcome A → Trace → Type ℓ where
  complete :
      {a : A} {w' : Trace}
      → stream sock w' ≡ stream sock w ++ bytes
      → Delivered sock w bytes (ok a) w'
  broken :
      {e : Exception} {w' : Trace} (n : ℕ)
      → n ≤ length bytes
      → stream sock w' ≡ stream sock w ++ take n bytes
      → Delivered sock w bytes (throws e) w'

same_int_refl : (z : ℤ) → same_int z z ≡ true
same_int_refl (pos n) = ground arith
same_int_refl (negsuc n) = ground arith

the_suc : (m n : ℕ) → suc (m + n) ≡ suc m + n
the_suc m n = omega arith

pub take-append-take {ℓ} :
    {A : Type ℓ} (m n : ℕ) (xs : List A) → take m xs ++ take n (drop m xs) ≡ take (m + n) xs
take-append-take zero n xs = ap (λ (k : ℕ). take k xs) (omega arith)
take-append-take (suc m) zero [] = ap (λ (k : ℕ). take k []) (the_suc m 0)
take-append-take (suc m) (suc n) [] = ap (λ (k : ℕ). take k []) (the_suc m (suc n))
take-append-take (suc m) n (x ∷ xs) =
    ap (◌∷◌ x) (take-append-take m n xs) ∙ ap (λ (k : ℕ). take k (x ∷ xs)) (the_suc m n)

negative-to_size : (z : ℤ) → is_negative z ≡ true → to_size z ≡ 0
negative-to_size (pos n) h = cc
negative-to_size (negsuc n) h = refl

pub take-length {ℓ} : {A : Type ℓ} (xs : List A) → take (length xs) xs ≡ xs
take-length [] = refl
take-length (x ∷ xs) = ap (◌∷◌ x) (take-length xs)

-- A send takes the first bytes, as many as it says.
pub stream-send :
    (sock : ℤ) (bytes : List ℕ) (reply : Reply) (w : Trace)
    → stream sock ((send sock bytes, reply) ∷ w) ≡ stream sock w ++ take (to_size reply.value) bytes
stream-send sock bytes reply w = rw (same_int_refl sock) refl

module _ {ℓ} {A : Type ℓ} (sock : ℤ) (w : Trace) (bytes : List ℕ) where
  pub Delivered-failed :
      (reply : Reply) (e : Exception)
      → is_negative reply.value ≡ true
      → Delivered {A = A} sock w bytes (throws e) ((send sock bytes, reply) ∷ w)
  Delivered-failed reply e failed = broken 0 (omega arith) (
      stream-send sock bytes reply w
      ∙ ap (λ (n : ℕ). stream sock w ++ take n bytes) (negative-to_size reply.value failed))

  pub Delivered-whole :
      (reply : Reply) (a : A)
      → (to_size reply.value == length bytes) ≡ true
      → Delivered sock w bytes (ok a) ((send sock bytes, reply) ∷ w)
  Delivered-whole reply a whole = complete (
      let all : to_size reply.value ≡ length bytes = ground arith in
      stream-send sock bytes reply w ∙ rw (all, take-length bytes) refl)

  pub Delivered-nothing : (e : Exception) → Delivered {A = A} sock w bytes (throws e) w
  Delivered-nothing e = broken 0 (omega arith) (sym (append-nil (stream sock w)))

  -- A run for what a send left over.
  pub Delivered-extend :
      (m : ℕ) {w₁ w' : Trace} {r : Outcome A}
      → m ≤ length bytes
      → stream sock w₁ ≡ stream sock w ++ take m bytes
      → Delivered sock w₁ (drop m bytes) r w'
      → Delivered sock w bytes r w'
  Delivered-extend m fits first (complete all) = complete (
      rw (
        all,
        first,
        append_assoc (stream sock w) (take m bytes) (drop m bytes),
        take-append-drop m bytes,
      ))
  Delivered-extend m fits first (broken n short some) =
      broken (m + n) (omega (arith, length-drop m bytes)) (
        rw (
          some,
          first,
          append_assoc (stream sock w) (take m bytes) (take n (drop m bytes)),
          take-append-take m n bytes,
        ))

  -- What follows a send and sends nothing.
  pub Delivered-after {κ} :
      {B : Type κ} {r : Outcome A} {w' : Trace} (next : A → Io B)
      → Delivered sock w bytes r w'
      → ((a : A) (v : Trace)
          → (b : B) × (u : Trace) × (next a v ≡ (ok b, u)) × (stream sock u ≡ stream sock v))
      → Delivered sock w bytes (after next w' r).0 (after next w' r).1
  Delivered-after next (complete {a = a} {w' = w'} all) quiet =
      let (b, u, runs, same) = quiet a w' in rw runs (complete (same ∙ all))
  Delivered-after next (broken n short some) quiet = broken n short some

-- ===== src/Packet/Memory/Bounds.antt =====
-- Loads inside the memory succeed, and what a 16-bit load can give.
use timing_proxy.Base.{
  ℕ, zero, suc, ◌+◌, ◌≤◌, ◌<◌, ◌≡◌, List, some, get_elem?-lt, length, ok, arith, Safe, returns,
  Safe-bind, >>=-returned,
}
use timing_proxy.Packet.Memory.{Memory, Pointer, load8, load16, load32, load_bytes}

abbrev pub Anything {ℓ} : {A : Type ℓ} → A → Type 0
Anything a = Unit {0}

module _ (m : Memory) (p : ℕ) where
  pub load8-Safe : (i : ℕ) → p + i < length m → Safe Anything (load8 m (some p) i)
  load8-Safe i h = let (b, e) = get_elem?-lt m (p + i) h in rw e (returns tt)

  pub load16-Safe : (i : ℕ) → p + i + 1 < length m → Safe Anything (load16 m (some p) i)
  unfolding load16
  load16-Safe i h =
      Safe-bind (load8-Safe i (omega arith))
        λ _ _. Safe-bind (load8-Safe (i + 1) (omega arith)) λ _ _. returns tt

  pub load32-Safe : (i : ℕ) → p + i + 3 < length m → Safe Anything (load32 m (some p) i)
  unfolding load32
  load32-Safe i h =
      Safe-bind (load16-Safe i (omega arith))
        λ _ _. Safe-bind (load16-Safe (i + 2) (omega arith)) λ _ _. returns tt

  pub load_bytes-Safe : (i n : ℕ) → p + i + n ≤ length m → Safe Anything (load_bytes m (some p) i n)
  unfolding load_bytes
  load_bytes-Safe i zero h = returns tt
  load_bytes-Safe i (suc n) h =
      Safe-bind (load8-Safe i (omega arith))
        λ _ _. Safe-bind (load_bytes-Safe (i + 1) n (omega arith)) λ _ _. returns tt

pub load_bytes-length :
    (m : Memory) (p : Pointer) (i n : ℕ) (bs : List ℕ) → load_bytes m p i n ≡ ok bs → length bs ≡ n
unfolding load_bytes
load_bytes-length m p i zero bs h = ground arith
load_bytes-length m p i (suc n) bs h =
    let (b, first, h') = >>=-returned (load8 m p i) _ h in
    let (rest, e, h'') = >>=-returned (load_bytes m p (i + 1) n) _ h' in
    ground (arith, load_bytes-length m p (i + 1) n rest e)

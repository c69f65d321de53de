-- ===== src/Os/Descriptors.antt =====
-- The descriptors that are open, read off the calls made.
use timing_proxy.Base.{
  ℕ, ◌+◌, ◌-◌, ◌≡◌, ap, subst, arith, ℤ, pos, negsuc, minus_one, is_negative, same_int, true, false,
  inl, inr, List, [], ◌∷◌, Bool-cases, if◌then◌else◌,
}
use timing_proxy.Os.Calls.{Call, Reply, Trace, socket, accept_from, close, epoll_create1}

abbrev pub erase : ℤ → List ℤ → List ℤ
erase z [] = []
erase z (x ∷ xs) = if same_int x z then xs else x ∷ erase z xs

-- The descriptors that a call opens and closes. Closing a negative number closes nothing.
abbrev pub update_open : Call × Reply → List ℤ → List ℤ
update_open (socket family type protocol, reply) fds =
    if is_negative reply.value then fds else reply.value ∷ fds
update_open (accept_from listening, reply) fds =
    if is_negative reply.value then fds else reply.value ∷ fds
update_open (epoll_create1, reply) fds =
    if same_int reply.value minus_one then fds else reply.value ∷ fds
update_open (close fd, reply) fds = if is_negative fd then fds else erase fd fds
update_open (_, reply) fds = fds

-- The descriptors that are open, the latest first.
abbrev pub open_fds : Trace → List ℤ
open_fds [] = []
open_fds (x ∷ w) = update_open x (open_fds w)

abbrev pub close_all : List ℤ → List ℤ → List ℤ
close_all [] fds = fds
close_all (z ∷ zs) fds = close_all zs (erase z fds)

abbrev pub times : ℤ → List ℤ → ℕ
times z [] = 0
times z (x ∷ xs) = (if same_int x z then 1 else 0) + times z xs

-- The same descriptors, each as often.
abbrev pub SameFds : List ℤ → List ℤ → Type 0
SameFds xs ys = (z : ℤ) → times z xs ≡ times z ys

pub erase-head : (z : ℤ) (fds : List ℤ) → erase z (z ∷ fds) ≡ fds
erase-head (pos n) fds = ground arith
erase-head (negsuc n) fds = ground arith

same_int→eq : (x y : ℤ) → same_int x y ≡ true → x ≡ y
same_int→eq (pos m) (pos n) h = ap pos (ground arith)
same_int→eq (pos m) (negsuc n) h = cc
same_int→eq (negsuc m) (pos n) h = cc
same_int→eq (negsuc m) (negsuc n) h = ap negsuc (ground arith)

-- Closing takes one away, if there is one.
pub times-erase :
    (z y : ℤ) (xs : List ℤ) → times z (erase y xs) ≡ times z xs - (if same_int y z then 1 else 0)
times-erase z y [] = ground arith
times-erase z y (x ∷ xs) = elim (Bool-cases (same_int x y)) [
  | inl same ↦ rw (same, same_int→eq x y same) (ground arith)
  | inr other ↦ rw other (elim (Bool-cases (same_int y z)) [
    | inl here ↦
        let apart : same_int x z ≡ false =
          subst (λ (u : ℤ). same_int x u ≡ false) (same_int→eq y z here) other in
        rw (here, apart) (omega (arith, rw here at (times-erase z y xs)))
    | inr there ↦ rw there (omega (arith, rw there at (times-erase z y xs)))
  ])
]

pub times-close_all : (z : ℤ) (zs xs : List ℤ) → times z (close_all zs xs) ≡ times z xs - times z zs
times-close_all z [] xs = ground arith
times-close_all z (y ∷ zs) xs =
    rw (times-close_all z zs (erase y xs), times-erase z y xs) (omega arith)

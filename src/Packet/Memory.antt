-- ===== src/Packet/Memory.antt =====
-- The memory that the parsers read, and the words that they read from it.
-- The target is little-endian, as the x86 processors that src/TimeSources asks for.
pub mod Bounds
pub mod Holds
use timing_proxy.Base.{
  ℕ, zero, suc, ◌+◌, ◌-◌, ◌*◌, ◌/◌, ◌%◌, ◌^◌, Option, none, some, List, [], ◌∷◌, get_elem?, Outcome,
  ok, fault, ◌>>=◌, or_fault,
}

-- The bytes that the caller owns. A pointer is an offset into them, or null.
abbrev pub Memory : Type 0
Memory = List ℕ

abbrev pub Pointer : Type 0
Pointer = Option ℕ

-- `(uint8_t*)p + n`
abbrev pub advance : Pointer → ℕ → Pointer
advance none n = none
advance (some p) n = some (p + n)

-- `size_t` subtraction.
abbrev pub sub_size : ℕ → ℕ → ℕ
sub_size a b = (a + 2 ^ 64 - b) % 2 ^ 64

-- The byte at an offset from a pointer.
abbrev pub load8 : Memory → Pointer → ℕ → Outcome ℕ
load8 m none i = fault
load8 m (some p) i = or_fault (get_elem? m (p + i))

unfoldable pub load16 : Memory → Pointer → ℕ → Outcome ℕ
load16 m p i = do b0 ← load8 m p i; b1 ← load8 m p (i + 1); ok (b0 + 256 * b1)

unfoldable pub load32 : Memory → Pointer → ℕ → Outcome ℕ
load32 m p i = do w0 ← load16 m p i; w1 ← load16 m p (i + 2); ok (w0 + 65536 * w1)

unfoldable pub load_bytes : Memory → Pointer → ℕ → ℕ → Outcome (List ℕ)
load_bytes m p i zero = ok []
load_bytes m p i (suc n) = do b ← load8 m p i; bs ← load_bytes m p (i + 1) n; ok (b ∷ bs)

-- From network to host byte order.
unfoldable pub ntohs : ℕ → ℕ
ntohs w = w % 256 * 256 + w / 256

unfoldable pub ntohl : ℕ → ℕ
unfolding ntohs
ntohl w = ntohs (w % 65536) * 65536 + ntohs (w / 65536)

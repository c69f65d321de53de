-- ===== src/Packet/Tcp/Bounds.antt =====
-- The TCP header: no read outside the segment, and where the payload lies.
use timing_proxy.Base.{
  ℕ, ◌+◌, ◌^◌, ◌≤◌, ◌<◌, ◌≡◌, some, none, false, raises, stops, length, arith, refl, Safe, returns,
  Safe-bind, Safe-throw_below, Safe-terminate_if,
}
use native.Mathlib.Decide.{dec_le}
use timing_proxy.Packet.Memory.{Memory, sub_size}
use timing_proxy.Packet.Memory.Bounds.{load8-Safe, load16-Safe, load32-Safe}
use timing_proxy.Packet.Types.{Layer, tcp, Artefacts, Decoded, Reaches, inside, wrapped}
use timing_proxy.Packet.Tcp.{TcpParser, parse_header, decode_until, new_tcp_parser}

-- The `Decoded` that a parsed header gives.
abbrev after : TcpParser → Artefacts → Decoded
after t a = record {
  payload = t.base.payload;
  payload_size = t.base.payload_size;
  artefacts = record a { payload_type = tcp; src_port = t.sport; dst_port = t.dport };
}

header-Reaches :
    (q size : ℕ) (d : Decoded) (n : ℕ)
    → n ≤ 60
    → d.payload ≡ some (q + n)
    → d.payload_size ≡ sub_size size n
    → size < 2 ^ 64
    → Reaches tcp (q + size) d
header-Reaches q size d n short at e small = elim (dec_le n size) [
  | yes fits ↦ inside (q + n) at (omega (arith, e))
  | no over ↦
      wrapped (q + size) (q + n) refl (omega arith) at (omega arith) (omega arith)
        (omega (arith, e))
]

module _ (m : Memory) (q size : ℕ) (owned : q + size ≤ length m) where
  parse_header-Safe :
      (this : TcpParser)
      → Safe
          (λ t.
            (t.header_length ≤ 60)
            × (20 ≤ size)
            × (t.base.payload ≡ some (q + t.header_length))
            × (t.base.payload_size ≡ sub_size size t.header_length))
          (parse_header m this (some q) size)
  unfolding parse_header
  parse_header-Safe this = Safe-bind (Safe-throw_below size 20 _) λ _ big.
      Safe-bind (load16-Safe m q 0 (omega arith)) λ _ _.
        Safe-bind (load16-Safe m q 2 (omega arith)) λ _ _.
          Safe-bind (load32-Safe m q 4 (omega arith)) λ _ _.
            Safe-bind (load32-Safe m q 8 (omega arith)) λ _ _.
              Safe-bind (load8-Safe m q 12 (omega arith))
                λ _ _. returns (omega arith, big, refl, refl)

  -- Decoding a TCP segment reads nothing outside it.
  pub decode_until-Safe :
      (layer : Layer) (a : Artefacts)
      → size < 2 ^ 64
      → Safe (Reaches layer (q + size)) (decode_until layer m (some q) size a)
  unfolding decode_until
  decode_until-Safe tcp a small = Safe-bind (Safe-terminate_if false) λ _ _.
      Safe-bind (parse_header-Safe new_tcp_parser) λ t (short, big, at, e).
        returns (header-Reaches q size (after t a) t.header_length short at e small)
  decode_until-Safe _ a small = stops

-- The null pointer is never read: it comes with the size 0.
pub decode_until-null :
    (m : Memory) (layer : Layer) (a : Artefacts) (stop : ℕ)
    → Safe (Reaches layer stop) (decode_until layer m none 0 a)
unfolding decode_until parse_header
decode_until-null m tcp a stop = raises
decode_until-null m _ a stop = stops

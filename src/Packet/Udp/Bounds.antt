-- ===== src/Packet/Udp/Bounds.antt =====
-- The UDP header: no read outside the datagram, and where the payload lies.
use timing_proxy.Base.{
  ℕ, ◌+◌, ◌^◌, ◌≤◌, ◌<◌, ◌≡◌, some, none, raises, stops, length, arith, refl, Safe, returns,
  Safe-bind, Safe-throw_below, Safe-terminate_if,
}
use timing_proxy.Packet.Memory.{Memory, sub_size, ntohs}
use timing_proxy.Packet.Memory.Bounds.{load16-Safe}
use timing_proxy.Packet.Types.{Layer, udp, Artefacts, Decoded, Reaches, inside}
use timing_proxy.Packet.Udp.{
  UdpParser, get_src_port, get_dst_port, parse_header, decode_until, new_udp_parser,
}

-- The `Decoded` that a parsed header gives.
abbrev after : UdpParser → Artefacts → Decoded
after t a = record {
  payload = t.base.payload;
  payload_size = t.base.payload_size;
  artefacts = record a { payload_type = udp; src_port = get_src_port t; dst_port = get_dst_port t };
}

header-add : {size : ℕ} → 8 ≤ size → size < 2 ^ 64 → 8 + sub_size size 8 ≡ size
header-add big small = omega arith

module _ (m : Memory) (q size : ℕ) (owned : q + size ≤ length m) (small : size < 2 ^ 64) where
  parse_header-Safe :
      (this : UdpParser)
      → Safe
          (λ t. (t.base.payload ≡ some (q + 8)) × (8 + t.base.payload_size ≡ size))
          (parse_header m this (some q) size)
  unfolding parse_header
  parse_header-Safe this = Safe-bind (Safe-throw_below size 8 _) λ _ big.
      Safe-bind (load16-Safe m q 0 (omega arith)) λ _ _.
        Safe-bind (load16-Safe m q 2 (omega arith)) λ _ _.
          Safe-bind (load16-Safe m q 6 (omega arith)) λ _ _.
            Safe-bind (load16-Safe m q 4 (omega arith)) λ len _.
              Safe-bind (Safe-throw_below size (ntohs len) _)
                λ _ _. returns (refl, header-add big small)

  -- Decoding a UDP datagram reads nothing outside it.
  pub decode_until-Safe :
      (layer : Layer) (a : Artefacts)
      → Safe (Reaches layer (q + size)) (decode_until layer m (some q) size a)
  unfolding decode_until
  decode_until-Safe layer a = Safe-bind (Safe-terminate_if _) λ _ _.
      Safe-bind (parse_header-Safe new_udp_parser)
        λ t h. returns {a = after t a} (inside (q + 8) h.0 (omega (arith, h.1)))

-- The null pointer is never read: it comes with the size 0.
pub decode_until-null :
    (m : Memory) (layer : Layer) (a : Artefacts) (stop : ℕ)
    → Safe (Reaches layer stop) (decode_until layer m none 0 a)
unfolding decode_until parse_header
decode_until-null m udp a stop = raises
decode_until-null m _ a stop = stops

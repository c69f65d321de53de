-- ===== src/Packet/Udp/Wire.antt =====
-- The UDP parser reads back a printed header.
use timing_proxy.Base.{ℕ, ◌+◌, ◌≤◌, ◌≡◌, refl, false, ltb, some, arith, ok}
use timing_proxy.Packet.Memory.{Memory, sub_size}
use timing_proxy.Packet.Memory.Holds.{Holds, load16-Holds, ntohs-swapped}
use timing_proxy.Packet.Types.{udp, Artefacts}
use timing_proxy.Packet.Udp.{UdpParser, parse_header, decode_until, new_udp_parser}
use timing_proxy.Packet.Wire.{UdpHeader, IsUdpHeader, print_udp}

-- What the parser holds after a header.
abbrev parsed : UdpHeader → UdpParser → ℕ → ℕ → UdpParser
parsed h this q size = record this {
  base = record {
    packet = some q;
    payload = some (q + 8);
    packet_size = size;
    payload_size = sub_size size 8;
  };
  sport = h.sport;
  dport = h.dport;
  checksum = h.checksum;
}

module _ (m : Memory) (q size : ℕ) (h : UdpHeader) (good : IsUdpHeader h)
    (held : Holds m q (print_udp h)) (big : 8 ≤ size) (fits : h.length ≤ size) where
  parse_header-print :
      (this : UdpParser) → parse_header m this (some q) size ≡ ok (parsed h this q size)
  unfolding parse_header
  parse_header-print this =
      let size_ok : ltb size 8 ≡ false = ground arith in
      let length_ok : ltb size h.length ≡ false = ground arith in
      rw (
        size_ok,
        load16-Holds m q (print_udp h) held 0 h.sport refl refl,
        load16-Holds m q (print_udp h) held 2 h.dport refl refl,
        load16-Holds m q (print_udp h) held 6 h.checksum refl refl,
        load16-Holds m q (print_udp h) held 4 h.length refl refl,
        ntohs-swapped h.sport good.sport,
        ntohs-swapped h.dport good.dport,
        ntohs-swapped h.checksum good.checksum,
        ntohs-swapped h.length good.length,
        length_ok,
      )

  pub decode_until-print :
      (a : Artefacts)
      → decode_until udp m (some q) size a
        ≡ ok (record {
          payload = some (q + 8);
          payload_size = sub_size size 8;
          artefacts = record a { payload_type = udp; src_port = h.sport; dst_port = h.dport };
        })
  unfolding decode_until
  decode_until-print a = rw (parse_header-print new_udp_parser)

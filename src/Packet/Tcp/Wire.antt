-- ===== src/Packet/Tcp/Wire.antt =====
-- The TCP parser reads back a printed header.
use timing_proxy.Base.{ℕ, ◌+◌, ◌*◌, ◌/◌, ◌%◌, ◌<◌, ◌≤◌, ◌≡◌, refl, false, ltb, some, arith, ok}
use timing_proxy.Packet.Memory.{Memory, sub_size}
use timing_proxy.Packet.Memory.Holds.{
  Holds, load16-Holds, load32-Holds, ntohs-swapped, ntohl-swapped,
}
use timing_proxy.Packet.Types.{tcp, Artefacts}
use timing_proxy.Packet.Tcp.{TcpParser, parse_header, decode_until, new_tcp_parser}
use timing_proxy.Packet.Wire.{TcpHeader, IsTcpHeader, print_tcp}

-- What the parser holds after a header.
abbrev parsed : TcpHeader → ℕ → ℕ → TcpParser
parsed h q size = record {
  base = record {
    packet = some q;
    payload = some (q + h.offset * 4);
    packet_size = size;
    payload_size = sub_size size (h.offset * 4);
  };
  sport = h.sport;
  dport = h.dport;
  seq = h.seq;
  ack = h.ack;
  header_length = h.offset * 4;
}

offset_nibble : (o r : ℕ) → o < 16 → r < 16 → (o * 16 + r) / 16 % 16 * 4 ≡ o * 4
offset_nibble o r ho hr = omega arith

module _ (m : Memory) (q size : ℕ) (h : TcpHeader) (good : IsTcpHeader h)
    (held : Holds m q (print_tcp h)) (big : 20 ≤ size) where
  parse_header-print : (this : TcpParser) → parse_header m this (some q) size ≡ ok (parsed h q size)
  unfolding parse_header
  parse_header-print this =
      let size_ok : ltb size 20 ≡ false = ground arith in
      rw (
        size_ok,
        load16-Holds m q (print_tcp h) held 0 h.sport refl refl,
        load16-Holds m q (print_tcp h) held 2 h.dport refl refl,
        load32-Holds m q (print_tcp h) held 4 h.seq refl refl refl refl,
        load32-Holds m q (print_tcp h) held 8 h.ack refl refl refl refl,
        held 12 (h.offset * 16 + h.reserved) refl,
        ntohs-swapped h.sport good.sport,
        ntohs-swapped h.dport good.dport,
        ntohl-swapped h.seq good.seq,
        ntohl-swapped h.ack good.ack,
        offset_nibble h.offset h.reserved good.offset good.reserved,
      )

  pub decode_until-print :
      (a : Artefacts)
      → decode_until tcp m (some q) size a
        ≡ ok (record {
          payload = some (q + h.offset * 4);
          payload_size = sub_size size (h.offset * 4);
          artefacts = record a { payload_type = tcp; src_port = h.sport; dst_port = h.dport };
        })
  unfolding decode_until
  decode_until-print a = rw (parse_header-print new_tcp_parser)

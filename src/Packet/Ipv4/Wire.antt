-- ===== src/Packet/Ipv4/Wire.antt =====
-- The IPv4 parser reads back a printed header, options included.
use timing_proxy.Base.{
  ℕ, ◌+◌, ◌*◌, ◌/◌, ◌%◌, ◌<◌, ◌≤◌, ◌≡◌, refl, false, ltb, some, List, ◌++◌, take, arith, ok,
}
use timing_proxy.Packet.Memory.{Memory, sub_size}
use timing_proxy.Packet.Memory.Holds.{
  Holds, Holds-left, Holds-right, load8-Holds, load16-Holds, load_bytes-Holds, ntohs-swapped,
}
use timing_proxy.Packet.Types.{ipv4, tcp, udp, Artefacts, Inet, strncpy}
use timing_proxy.Packet.Tcp
use timing_proxy.Packet.Udp
use timing_proxy.Packet.Ipv4.{Ipv4Parser, parse_header, decode_until, new_ipv4_parser}
use timing_proxy.Packet.Wire.{Ipv4Header, IsIpv4Header, print_ipv4, print_address4}

-- What the parser holds after a header.
abbrev parsed : Ipv4Header → List ℕ → List ℕ → ℕ → ℕ → Ipv4Parser
parsed h src dst q size = record {
  base = record {
    packet = some q;
    payload = some (q + h.ihl * 4);
    packet_size = size;
    payload_size = sub_size h.total_length (h.ihl * 4);
  };
  header_length = h.ihl * 4;
  proto = h.protocol;
  addr_src = src;
  addr_dst = dst;
}

version_nibble : (n : ℕ) → n < 16 → (4 * 16 + n) / 16 ≡ 4
version_nibble n h = omega arith

length_nibble : (n : ℕ) → n < 16 → (4 * 16 + n) % 16 * 4 ≡ n * 4
length_nibble n h = omega arith

-- The addresses as the source writes them to its artefacts.
abbrev pub addressed : List ℕ → List ℕ → Artefacts → Artefacts
addressed src dst a = record a { ip_type = ipv4; src_ip = strncpy 16 src; dst_ip = strncpy 16 dst }

module _ (inet : Inet) (m : Memory) (q size : ℕ) (h : Ipv4Header) (good : IsIpv4Header h)
    (held : Holds m q (print_ipv4 h)) (big : 20 ≤ size) (src dst : List ℕ)
    (src_ok : inet.ntop4 (print_address4 h.src) ≡ some src)
    (dst_ok : inet.ntop4 (print_address4 h.dst) ≡ some dst) where
  held_src : Holds m (q + 12) (print_address4 h.src)
  held_src = Holds-left m (q + 12) (print_address4 h.src) (print_address4 h.dst ++ h.options) (
      Holds-right m q (take 12 (print_ipv4 h))
        (print_address4 h.src ++ print_address4 h.dst ++ h.options) held)

  held_dst : Holds m (q + 16) (print_address4 h.dst)
  held_dst =
      Holds-left m (q + 16) (print_address4 h.dst) h.options
        (Holds-right m q (take 16 (print_ipv4 h)) (print_address4 h.dst ++ h.options) held)

  parse_header-print :
      (this : Ipv4Parser) → parse_header inet m this (some q) size ≡ ok (parsed h src dst q size)
  unfolding parse_header
  parse_header-print this =
      let size_ok : ltb size 20 ≡ false = ground arith in
      rw (
        size_ok,
        load8-Holds m q (print_ipv4 h) held 0 (4 * 16 + h.ihl) refl,
        version_nibble h.ihl good.ihl,
        load16-Holds m q (print_ipv4 h) held 2 h.total_length refl refl,
        load8-Holds m q (print_ipv4 h) held 9 h.protocol refl,
        load_bytes-Holds m q 12 (print_address4 h.src) held_src,
        src_ok,
        load_bytes-Holds m q 16 (print_address4 h.dst) held_dst,
        dst_ok,
        ntohs-swapped h.total_length good.total_length,
        length_nibble h.ihl good.ihl,
      )

  pub decode_until-tcp :
      (a : Artefacts)
      → h.protocol ≡ 6
      → decode_until inet tcp m (some q) size a
        ≡ Tcp.decode_until tcp m
            (some (q + h.ihl * 4))
            (sub_size h.total_length (h.ihl * 4))
            (addressed src dst a)
  unfolding decode_until
  decode_until-tcp a e = rw (parse_header-print new_ipv4_parser, e)

  pub decode_until-udp :
      (a : Artefacts)
      → h.protocol ≡ 17
      → decode_until inet udp m (some q) size a
        ≡ Udp.decode_until udp m
            (some (q + h.ihl * 4))
            (sub_size h.total_length (h.ihl * 4))
            (addressed src dst a)
  unfolding decode_until
  decode_until-udp a e = rw (parse_header-print new_ipv4_parser, e)

-- ===== src/Packet/Tests.antt =====
-- The frames of tests/PacketParserTest, decoded as that suite expects, and inputs for the theorems.
use timing_proxy.Packet.Ipv6.{is_extension_header}
use timing_proxy.Base.{
  ℕ, ◌≡◌, refl, List, [], ◌∷◌, ◌++◌, none, some, length, take, drop, Outcome, ok, throws, terminate,
  fault, out_of_fuel, Safe, arith,
}
use timing_proxy.Packet.Memory.{Memory, load16, load32, load_bytes, ntohs, ntohl}
use timing_proxy.Packet.Types.{
  Layer, ipv4, tcp, udp, Artefacts, Decoded, Reaches, Inet, get_payload, get_payload_size,
}
use timing_proxy.Packet.Memory.Holds.{Holds}
use timing_proxy.Packet.Wire.{
  EthernetHeader, IsEthernetHeader, Ipv4Header, IsIpv4Header, TcpHeader, IsTcpHeader, print_tcp,
}
use timing_proxy.Packet.Ethernet.Wire.{frame4, decode_packet-frame4_tcp}
use timing_proxy.Packet.Ethernet.Bounds.{IsHonestFrame, decode_packet-Safe}
use timing_proxy.Packet.Tcp
use timing_proxy.Packet.Udp
use timing_proxy.Packet.Ipv4
use timing_proxy.Packet.Ipv6
use timing_proxy.Packet.Ethernet
use timing_proxy.Packet.Ethernet.{decode_packet}

-- Stands for the C library: an address is shown by its own bytes.
abbrev pub raw_inet : Inet
raw_inet = record { ntop4 = λ bs. some bs; ntop6 = λ bs. some bs }

abbrev pub blank : Artefacts
blank = record {
  ip_type = ipv4;
  src_ip = [];
  dst_ip = [];
  payload_type = tcp;
  src_port = 0;
  dst_port = 0;
}

abbrev pub ethernet_ipv4_tcp : Memory
ethernet_ipv4_tcp =
    0x00 ∷ 0x90 ∷ 0x4c ∷ 0x0d ∷ 0xf4 ∷ 0x3e ∷ 0x44 ∷ 0x8a ∷ 0x5b ∷ 0x85 ∷ 0x0d ∷ 0x6e ∷ 0x08 ∷ 0x00
    ∷ 0x45 ∷ 0x00 ∷ 0x00 ∷ 0x50 ∷ 0x6c ∷ 0xfe ∷ 0x40 ∷ 0x00 ∷ 0x40 ∷ 0x06 ∷ 0xe7 ∷ 0xf0 ∷ 0xc0
    ∷ 0xa8 ∷ 0xb2 ∷ 0x2c ∷ 0xc0 ∷ 0xa8 ∷ 0xb2 ∷ 0x3b ∷ 0xc6 ∷ 0xc6 ∷ 0x05 ∷ 0x39 ∷ 0x24 ∷ 0x8a
    ∷ 0x21 ∷ 0x48 ∷ 0x8e ∷ 0x0c ∷ 0xf3 ∷ 0x9b ∷ 0x80 ∷ 0x18 ∷ 0x00 ∷ 0xe5 ∷ 0xb8 ∷ 0xa2 ∷ 0x00
    ∷ 0x00 ∷ 0x01 ∷ 0x01 ∷ 0x08 ∷ 0x0a ∷ 0x1a ∷ 0x60 ∷ 0x74 ∷ 0x1a ∷ 0xd8 ∷ 0xd3 ∷ 0x28 ∷ 0x65
    ∷ 0x4a ∷ 0x75 ∷ 0x73 ∷ 0x74 ∷ 0x20 ∷ 0x74 ∷ 0x65 ∷ 0x73 ∷ 0x74 ∷ 0x69 ∷ 0x6e ∷ 0x67 ∷ 0x20
    ∷ 0x74 ∷ 0x63 ∷ 0x70 ∷ 0x20 ∷ 0x6f ∷ 0x76 ∷ 0x65 ∷ 0x72 ∷ 0x20 ∷ 0x69 ∷ 0x70 ∷ 0x76 ∷ 0x34
    ∷ 0x21 ∷ 0x0a ∷ []

abbrev pub ethernet_ipv6_tcp : Memory
ethernet_ipv6_tcp =
    0x00 ∷ 0x00 ∷ 0x00 ∷ 0x00 ∷ 0x00 ∷ 0x00 ∷ 0x00 ∷ 0x00 ∷ 0x00 ∷ 0x00 ∷ 0x00 ∷ 0x00 ∷ 0x86 ∷ 0xdd
    ∷ 0x60 ∷ 0x04 ∷ 0xb1 ∷ 0xa0 ∷ 0x00 ∷ 0x3c ∷ 0x06 ∷ 0x40 ∷ 0x00 ∷ 0x00 ∷ 0x00 ∷ 0x00 ∷ 0x00
    ∷ 0x00 ∷ 0x00 ∷ 0x00 ∷ 0x00 ∷ 0x00 ∷ 0x00 ∷ 0x00 ∷ 0x00 ∷ 0x00 ∷ 0x00 ∷ 0x01 ∷ 0x00 ∷ 0x00
    ∷ 0x00 ∷ 0x00 ∷ 0x00 ∷ 0x00 ∷ 0x00 ∷ 0x00 ∷ 0x00 ∷ 0x00 ∷ 0x00 ∷ 0x00 ∷ 0x00 ∷ 0x00 ∷ 0x00
    ∷ 0x01 ∷ 0xa9 ∷ 0x28 ∷ 0x05 ∷ 0x39 ∷ 0xa8 ∷ 0x3c ∷ 0x83 ∷ 0x9d ∷ 0xe2 ∷ 0x96 ∷ 0xcb ∷ 0x63
    ∷ 0x80 ∷ 0x18 ∷ 0x01 ∷ 0x56 ∷ 0x00 ∷ 0x44 ∷ 0x00 ∷ 0x00 ∷ 0x01 ∷ 0x01 ∷ 0x08 ∷ 0x0a ∷ 0x9d
    ∷ 0x4d ∷ 0xf9 ∷ 0x64 ∷ 0x9d ∷ 0x4d ∷ 0xe9 ∷ 0xa3 ∷ 0x4a ∷ 0x75 ∷ 0x73 ∷ 0x74 ∷ 0x20 ∷ 0x74
    ∷ 0x65 ∷ 0x73 ∷ 0x74 ∷ 0x69 ∷ 0x6e ∷ 0x67 ∷ 0x20 ∷ 0x74 ∷ 0x63 ∷ 0x70 ∷ 0x20 ∷ 0x6f ∷ 0x76
    ∷ 0x65 ∷ 0x72 ∷ 0x20 ∷ 0x69 ∷ 0x70 ∷ 0x76 ∷ 0x36 ∷ 0x21 ∷ 0x0a ∷ []

abbrev pub ethernet_ipv4_udp : Memory
ethernet_ipv4_udp =
    0x00 ∷ 0x00 ∷ 0x00 ∷ 0x00 ∷ 0x00 ∷ 0x00 ∷ 0x00 ∷ 0x00 ∷ 0x00 ∷ 0x00 ∷ 0x00 ∷ 0x00 ∷ 0x08 ∷ 0x00
    ∷ 0x45 ∷ 0x00 ∷ 0x00 ∷ 0x38 ∷ 0xa8 ∷ 0xb1 ∷ 0x40 ∷ 0x00 ∷ 0x40 ∷ 0x11 ∷ 0x94 ∷ 0x01 ∷ 0x7f
    ∷ 0x00 ∷ 0x00 ∷ 0x01 ∷ 0x7f ∷ 0x00 ∷ 0x00 ∷ 0x01 ∷ 0x92 ∷ 0xbe ∷ 0x05 ∷ 0x39 ∷ 0x00 ∷ 0x24
    ∷ 0xfe ∷ 0x37 ∷ 0x4a ∷ 0x75 ∷ 0x73 ∷ 0x74 ∷ 0x20 ∷ 0x74 ∷ 0x65 ∷ 0x73 ∷ 0x74 ∷ 0x69 ∷ 0x6e
    ∷ 0x67 ∷ 0x20 ∷ 0x75 ∷ 0x64 ∷ 0x70 ∷ 0x20 ∷ 0x6f ∷ 0x76 ∷ 0x65 ∷ 0x72 ∷ 0x20 ∷ 0x69 ∷ 0x70
    ∷ 0x76 ∷ 0x34 ∷ 0x21 ∷ 0x0a ∷ []

abbrev pub ethernet_ipv6_udp : Memory
ethernet_ipv6_udp =
    0x00 ∷ 0x00 ∷ 0x00 ∷ 0x00 ∷ 0x00 ∷ 0x00 ∷ 0x00 ∷ 0x00 ∷ 0x00 ∷ 0x00 ∷ 0x00 ∷ 0x00 ∷ 0x86 ∷ 0xdd
    ∷ 0x60 ∷ 0x0b ∷ 0x2a ∷ 0x74 ∷ 0x00 ∷ 0x24 ∷ 0x11 ∷ 0x40 ∷ 0x00 ∷ 0x00 ∷ 0x00 ∷ 0x00 ∷ 0x00
    ∷ 0x00 ∷ 0x00 ∷ 0x00 ∷ 0x00 ∷ 0x00 ∷ 0x00 ∷ 0x00 ∷ 0x00 ∷ 0x00 ∷ 0x00 ∷ 0x01 ∷ 0x00 ∷ 0x00
    ∷ 0x00 ∷ 0x00 ∷ 0x00 ∷ 0x00 ∷ 0x00 ∷ 0x00 ∷ 0x00 ∷ 0x00 ∷ 0x00 ∷ 0x00 ∷ 0x00 ∷ 0x00 ∷ 0x00
    ∷ 0x01 ∷ 0xe2 ∷ 0x84 ∷ 0x05 ∷ 0x39 ∷ 0x00 ∷ 0x24 ∷ 0x00 ∷ 0x37 ∷ 0x4a ∷ 0x75 ∷ 0x73 ∷ 0x74
    ∷ 0x20 ∷ 0x74 ∷ 0x65 ∷ 0x73 ∷ 0x74 ∷ 0x69 ∷ 0x6e ∷ 0x67 ∷ 0x20 ∷ 0x75 ∷ 0x64 ∷ 0x70 ∷ 0x20
    ∷ 0x6f ∷ 0x76 ∷ 0x65 ∷ 0x72 ∷ 0x20 ∷ 0x69 ∷ 0x70 ∷ 0x76 ∷ 0x36 ∷ 0x21 ∷ 0x0a ∷ []

abbrev pub payload_of : Memory → Outcome Decoded → List ℕ
payload_of m (ok d) = elim d.payload [ none ↦ [] | some p ↦ take d.payload_size (drop p m) ]
payload_of m (throws e) = []
payload_of m terminate = []
payload_of m fault = []
payload_of m out_of_fuel = []

-- The payload that decoding a frame up to a layer finds.
pub payload_at : Layer → Memory → List ℕ
unfolding decode_packet Ethernet.decode_until Ethernet.parse_header Ipv4.decode_until
    Ipv4.parse_header Ipv6.decode_until Ipv6.parse_header Ipv6.extension_headers Ipv6.skip_header
    Ipv6.is_extension_header Tcp.decode_until Tcp.parse_header Tcp.get_src_port Tcp.get_dst_port
    Udp.decode_until Udp.parse_header Udp.get_src_port Udp.get_dst_port load16 load32 load_bytes
    ntohs ntohl get_payload get_payload_size
payload_at layer m = payload_of m (decode_packet raw_inet layer m (some 0) (length m) blank)

ethernet_ipv4_tcp_decodes :
    payload_at tcp ethernet_ipv4_tcp
    ≡ 0x4a ∷ 0x75 ∷ 0x73 ∷ 0x74 ∷ 0x20 ∷ 0x74 ∷ 0x65 ∷ 0x73 ∷ 0x74 ∷ 0x69 ∷ 0x6e ∷ 0x67 ∷ 0x20
      ∷ 0x74 ∷ 0x63 ∷ 0x70 ∷ 0x20 ∷ 0x6f ∷ 0x76 ∷ 0x65 ∷ 0x72 ∷ 0x20 ∷ 0x69 ∷ 0x70 ∷ 0x76 ∷ 0x34
      ∷ 0x21 ∷ 0x0a ∷ []
unfolding payload_at
ethernet_ipv4_tcp_decodes = refl

ethernet_ipv6_tcp_decodes :
    payload_at tcp ethernet_ipv6_tcp
    ≡ 0x4a ∷ 0x75 ∷ 0x73 ∷ 0x74 ∷ 0x20 ∷ 0x74 ∷ 0x65 ∷ 0x73 ∷ 0x74 ∷ 0x69 ∷ 0x6e ∷ 0x67 ∷ 0x20
      ∷ 0x74 ∷ 0x63 ∷ 0x70 ∷ 0x20 ∷ 0x6f ∷ 0x76 ∷ 0x65 ∷ 0x72 ∷ 0x20 ∷ 0x69 ∷ 0x70 ∷ 0x76 ∷ 0x36
      ∷ 0x21 ∷ 0x0a ∷ []
unfolding payload_at
ethernet_ipv6_tcp_decodes = refl

ethernet_ipv4_udp_decodes :
    payload_at udp ethernet_ipv4_udp
    ≡ 0x4a ∷ 0x75 ∷ 0x73 ∷ 0x74 ∷ 0x20 ∷ 0x74 ∷ 0x65 ∷ 0x73 ∷ 0x74 ∷ 0x69 ∷ 0x6e ∷ 0x67 ∷ 0x20
      ∷ 0x75 ∷ 0x64 ∷ 0x70 ∷ 0x20 ∷ 0x6f ∷ 0x76 ∷ 0x65 ∷ 0x72 ∷ 0x20 ∷ 0x69 ∷ 0x70 ∷ 0x76 ∷ 0x34
      ∷ 0x21 ∷ 0x0a ∷ []
unfolding payload_at
ethernet_ipv4_udp_decodes = refl

ethernet_ipv6_udp_decodes :
    payload_at udp ethernet_ipv6_udp
    ≡ 0x4a ∷ 0x75 ∷ 0x73 ∷ 0x74 ∷ 0x20 ∷ 0x74 ∷ 0x65 ∷ 0x73 ∷ 0x74 ∷ 0x69 ∷ 0x6e ∷ 0x67 ∷ 0x20
      ∷ 0x75 ∷ 0x64 ∷ 0x70 ∷ 0x20 ∷ 0x6f ∷ 0x76 ∷ 0x65 ∷ 0x72 ∷ 0x20 ∷ 0x69 ∷ 0x70 ∷ 0x76 ∷ 0x36
      ∷ 0x21 ∷ 0x0a ∷ []
unfolding payload_at
ethernet_ipv6_udp_decodes = refl

-- The headers of the first frame, as values.
abbrev pub test_ethernet : EthernetHeader
test_ethernet = record {
  dhost = 0x00 ∷ 0x90 ∷ 0x4c ∷ 0x0d ∷ 0xf4 ∷ 0x3e ∷ [];
  shost = 0x44 ∷ 0x8a ∷ 0x5b ∷ 0x85 ∷ 0x0d ∷ 0x6e ∷ [];
  type = 0x0800;
}

abbrev pub test_ipv4 : Ipv4Header
test_ipv4 = record {
  ihl = 5;
  tos = 0;
  total_length = 0x50;
  identification = 0x6cfe;
  fragment = 0x4000;
  ttl = 0x40;
  protocol = 6;
  checksum = 0xe7f0;
  src = record { a = 192; b = 168; c = 178; d = 44 };
  dst = record { a = 192; b = 168; c = 178; d = 59 };
  options = [];
}

abbrev pub test_tcp : TcpHeader
test_tcp = record {
  sport = 0xc6c6;
  dport = 0x0539;
  seq = 0x248a2148;
  ack = 0x8e0cf39b;
  offset = 8;
  reserved = 0;
  flags = 0x18;
  window = 0x00e5;
  checksum = 0xb8a2;
  urgent = 0;
  options = 0x01 ∷ 0x01 ∷ 0x08 ∷ 0x0a ∷ 0x1a ∷ 0x60 ∷ 0x74 ∷ 0x1a ∷ 0xd8 ∷ 0xd3 ∷ 0x28 ∷ 0x65 ∷ [];
}

abbrev pub test_payload : List ℕ
test_payload =
    0x4a ∷ 0x75 ∷ 0x73 ∷ 0x74 ∷ 0x20 ∷ 0x74 ∷ 0x65 ∷ 0x73 ∷ 0x74 ∷ 0x69 ∷ 0x6e ∷ 0x67 ∷ 0x20 ∷ 0x74
    ∷ 0x63 ∷ 0x70 ∷ 0x20 ∷ 0x6f ∷ 0x76 ∷ 0x65 ∷ 0x72 ∷ 0x20 ∷ 0x69 ∷ 0x70 ∷ 0x76 ∷ 0x34 ∷ 0x21
    ∷ 0x0a ∷ []

pub test_IsEthernetHeader : IsEthernetHeader test_ethernet
test_IsEthernetHeader = record { dhost = refl; shost = refl; type = omega arith }

pub test_IsIpv4Header : IsIpv4Header test_ipv4
test_IsIpv4Header = record { ihl = omega arith; total_length = omega arith; words = refl }

pub test_IsTcpHeader : IsTcpHeader test_tcp
test_IsTcpHeader = record {
  sport = omega arith;
  dport = omega arith;
  seq = omega arith;
  ack = omega arith;
  offset = omega arith;
  reserved = omega arith;
  words = refl;
}

frame4-test :
    frame4 test_ethernet test_ipv4 (print_tcp test_tcp ++ test_payload) [] ≡ ethernet_ipv4_tcp
frame4-test = refl

decode_packet-frame4_tcp_example :
    (decode_packet raw_inet tcp ethernet_ipv4_tcp (some 0) 94 blank
      ≡ ok (record {
        payload = some 66;
        payload_size = 28;
        artefacts = record blank {
          ip_type = ipv4;
          src_ip = 192 ∷ 168 ∷ 178 ∷ 44 ∷ [];
          dst_ip = 192 ∷ 168 ∷ 178 ∷ 59 ∷ [];
          payload_type = tcp;
          src_port = 0xc6c6;
          dst_port = 0x0539;
        };
      }))
    × Holds ethernet_ipv4_tcp 66 test_payload
decode_packet-frame4_tcp_example =
    decode_packet-frame4_tcp raw_inet test_ethernet test_ipv4 test_tcp test_payload []
      (192 ∷ 168 ∷ 178 ∷ 44 ∷ []) (192 ∷ 168 ∷ 178 ∷ 59 ∷ []) blank test_IsEthernetHeader
      test_IsIpv4Header test_IsTcpHeader refl refl refl (omega arith) refl refl

test_IsHonestFrame : IsHonestFrame ethernet_ipv4_tcp 94
unfolding load16 ntohs
test_IsHonestFrame word e t vhl len v l = ground arith

decode_packet-Safe_example :
    Safe (Reaches udp 94) (decode_packet raw_inet udp ethernet_ipv4_tcp (some 0) 94 blank)
decode_packet-Safe_example =
    decode_packet-Safe raw_inet ethernet_ipv4_tcp 94 (omega arith) (omega arith) udp blank
      test_IsHonestFrame

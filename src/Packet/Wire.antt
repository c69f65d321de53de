-- ===== src/Packet/Wire.antt =====
-- The headers as the standards print them, written without the parsers: what the parsers have to
-- read back. Multi-byte fields are in network order.
use timing_proxy.Base.{ℕ, ◌+◌, ◌*◌, ◌/◌, ◌%◌, ◌<◌, ◌≡◌, List, [], ◌∷◌, ◌++◌, length}

-- RFC 793.
pub record TcpHeader : Type 0 where
  pub sport : ℕ
  pub dport : ℕ
  pub seq : ℕ
  pub ack : ℕ
  pub offset : ℕ
  pub reserved : ℕ
  pub flags : ℕ
  pub window : ℕ
  pub checksum : ℕ
  pub urgent : ℕ
  pub options : List ℕ

-- Every field fits its bits, and the offset counts the header's 32-bit words.
pub record IsTcpHeader (h : TcpHeader) : Type 0 where
  pub sport : h.sport < 65536
  pub dport : h.dport < 65536
  pub seq : h.seq < 4294967296
  pub ack : h.ack < 4294967296
  pub offset : h.offset < 16
  pub reserved : h.reserved < 16
  pub words : 20 + length h.options ≡ h.offset * 4

abbrev pub print_tcp : TcpHeader → List ℕ
print_tcp h =
    (h.sport / 256)
    ∷ (h.sport % 256)
    ∷ (h.dport / 256)
    ∷ (h.dport % 256)
    ∷ (h.seq / 65536 / 256)
    ∷ (h.seq / 65536 % 256)
    ∷ (h.seq % 65536 / 256)
    ∷ (h.seq % 65536 % 256)
    ∷ (h.ack / 65536 / 256)
    ∷ (h.ack / 65536 % 256)
    ∷ (h.ack % 65536 / 256)
    ∷ (h.ack % 65536 % 256)
    ∷ (h.offset * 16 + h.reserved)
    ∷ h.flags
    ∷ (h.window / 256)
    ∷ (h.window % 256)
    ∷ (h.checksum / 256)
    ∷ (h.checksum % 256)
    ∷ (h.urgent / 256)
    ∷ (h.urgent % 256)
    ∷ h.options

-- RFC 768.
pub record UdpHeader : Type 0 where
  pub sport : ℕ
  pub dport : ℕ
  pub length : ℕ
  pub checksum : ℕ

pub record IsUdpHeader (h : UdpHeader) : Type 0 where
  pub sport : h.sport < 65536
  pub dport : h.dport < 65536
  pub length : h.length < 65536
  pub checksum : h.checksum < 65536

abbrev pub print_udp : UdpHeader → List ℕ
print_udp h =
    (h.sport / 256)
    ∷ (h.sport % 256)
    ∷ (h.dport / 256)
    ∷ (h.dport % 256)
    ∷ (h.length / 256)
    ∷ (h.length % 256)
    ∷ (h.checksum / 256)
    ∷ (h.checksum % 256)
    ∷ []

-- An IPv4 address.
pub record Address4 : Type 0 where
  pub a : ℕ
  pub b : ℕ
  pub c : ℕ
  pub d : ℕ

abbrev pub print_address4 : Address4 → List ℕ
print_address4 x = x.a ∷ x.b ∷ x.c ∷ x.d ∷ []

-- RFC 791. `ihl` counts the header's 32-bit words.
pub record Ipv4Header : Type 0 where
  pub ihl : ℕ
  pub tos : ℕ
  pub total_length : ℕ
  pub identification : ℕ
  pub fragment : ℕ
  pub ttl : ℕ
  pub protocol : ℕ
  pub checksum : ℕ
  pub src : Address4
  pub dst : Address4
  pub options : List ℕ

pub record IsIpv4Header (h : Ipv4Header) : Type 0 where
  pub ihl : h.ihl < 16
  pub total_length : h.total_length < 65536
  pub words : 20 + length h.options ≡ h.ihl * 4

abbrev pub print_ipv4 : Ipv4Header → List ℕ
print_ipv4 h =
    (4 * 16 + h.ihl)
    ∷ h.tos
    ∷ (h.total_length / 256)
    ∷ (h.total_length % 256)
    ∷ (h.identification / 256)
    ∷ (h.identification % 256)
    ∷ (h.fragment / 256)
    ∷ (h.fragment % 256)
    ∷ h.ttl
    ∷ h.protocol
    ∷ (h.checksum / 256)
    ∷ (h.checksum % 256)
    ∷ h.src.a
    ∷ h.src.b
    ∷ h.src.c
    ∷ h.src.d
    ∷ h.dst.a
    ∷ h.dst.b
    ∷ h.dst.c
    ∷ h.dst.d
    ∷ h.options

-- RFC 8200. The flow label has 20 bits, the traffic class 8.
pub record Ipv6Header : Type 0 where
  pub traffic_class : ℕ
  pub flow_label : ℕ
  pub payload_length : ℕ
  pub next_header : ℕ
  pub hop_limit : ℕ
  pub src : List ℕ
  pub dst : List ℕ

pub record IsIpv6Header (h : Ipv6Header) : Type 0 where
  pub traffic_class : h.traffic_class < 256
  pub payload_length : h.payload_length < 65536
  pub src : length h.src ≡ 16
  pub dst : length h.dst ≡ 16

abbrev pub print_ipv6 : Ipv6Header → List ℕ
print_ipv6 h =
    (6 * 16 + h.traffic_class / 16)
      ∷ (h.traffic_class % 16 * 16 + h.flow_label / 65536)
      ∷ (h.flow_label / 256 % 256)
      ∷ (h.flow_label % 256)
      ∷ (h.payload_length / 256)
      ∷ (h.payload_length % 256)
      ∷ h.next_header
      ∷ h.hop_limit
      ∷ h.src
    ++ h.dst

-- An extension header: its own type, and its length in 8-byte units beyond the first.
pub record ExtHeader : Type 0 where
  pub type : ℕ
  pub units : ℕ
  pub body : List ℕ

abbrev pub first_type : List ExtHeader → ℕ → ℕ
first_type [] upper = upper
first_type (e ∷ es) upper = e.type

-- The chain in front of an upper-layer header of type `upper`.
abbrev pub print_chain : List ExtHeader → ℕ → List ℕ
print_chain [] upper = []
print_chain (e ∷ es) upper = first_type es upper ∷ e.units ∷ e.body ++ print_chain es upper

-- IEEE 802.3.
pub record EthernetHeader : Type 0 where
  pub dhost : List ℕ
  pub shost : List ℕ
  pub type : ℕ

pub record IsEthernetHeader (h : EthernetHeader) : Type 0 where
  pub dhost : length h.dhost ≡ 6
  pub shost : length h.shost ≡ 6
  pub type : h.type < 65536

abbrev pub print_ethernet : EthernetHeader → List ℕ
print_ethernet h = h.dhost ++ h.shost ++ (h.type / 256) ∷ (h.type % 256) ∷ []

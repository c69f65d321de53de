-- ===== src/Packet/Ipv4.antt =====
-- PacketParser/Ipv4: the IPv4 header and its options.
pub mod Bounds
pub mod Wire
use timing_proxy.Base.{
  ℕ, ◌*◌, ◌/◌, ◌%◌, not, List, [], Outcome, ok, terminate, invalid_argument, ◌>>=◌, ◌>>◌, throw_if,
  terminate_if, or_throw, ltb, ◌==◌, if◌then◌else◌,
}
use timing_proxy.Packet.Memory.{
  Memory, Pointer, advance, sub_size, load8, load16, load_bytes, ntohs,
}
use timing_proxy.Packet.Types.{
  Layer, ipv4, same_layer, PacketParser, new_packet_parser, get_payload, get_payload_size,
  Artefacts, Decoded, strncpy, Inet,
}
use timing_proxy.Packet.Tcp
use timing_proxy.Packet.Udp

abbrev pub min_header_len : ℕ
min_header_len = 20

abbrev pub inet_addrstrlen : ℕ
inet_addrstrlen = 16

-- `enum IpProto`: a cast keeps any value of the header's byte.
abbrev pub proto_tcp : ℕ
proto_tcp = 0x6

abbrev pub proto_udp : ℕ
proto_udp = 0x11

abbrev pub proto_other : ℕ
proto_other = 0x12

pub record Ipv4Parser : Type 0 where
  pub base : PacketParser
  pub header_length : ℕ
  pub proto : ℕ
  pub addr_src : List ℕ
  pub addr_dst : List ℕ

abbrev pub new_ipv4_parser : Ipv4Parser
new_ipv4_parser = record {
  base = new_packet_parser;
  header_length = 20;
  proto = proto_other;
  addr_src = [];
  addr_dst = [];
}

module _ (inet : Inet) where
  -- The offsets are those of the fields of `struct ipv4_header`.
  unfoldable pub parse_header : Memory → Ipv4Parser → Pointer → ℕ → Outcome Ipv4Parser
  parse_header m this packet size = do
    throw_if (ltb size min_header_len) (invalid_argument "Ipv4 packet must be at least 20 bytes")
    ip_vhl ← load8 m packet 0
    terminate_if (not (ip_vhl / 16 == 4))
    let header_length = ip_vhl % 16 * 4
    ip_len ← load16 m packet 2
    ip_p ← load8 m packet 9
    ip_src ← load_bytes m packet 12 4
    addr_src ←
        or_throw (inet.ntop4 ip_src) (invalid_argument "Packet has invalid ipv4 source address")
    ip_dst ← load_bytes m packet 16 4
    addr_dst ←
        or_throw (inet.ntop4 ip_dst)
          (invalid_argument "Packet has invalid ipv4 destination address")
    ok (record {
      base = record {
        packet = packet;
        payload = advance packet header_length;
        packet_size = size;
        payload_size = sub_size (ntohs ip_len) header_length;
      };
      header_length = header_length;
      proto = ip_p;
      addr_src = addr_src;
      addr_dst = addr_dst;
    })

  unfoldable pub decode_until : Layer → Memory → Pointer → ℕ → Artefacts → Outcome Decoded
  unfolding get_payload get_payload_size
  decode_until layer m packet size artefacts = do
    parser ← parse_header m new_ipv4_parser packet size
    let payload = get_payload parser.base
    let payload_size = get_payload_size parser.base
    let artefacts' = record artefacts {
      ip_type = ipv4;
      src_ip = strncpy inet_addrstrlen parser.addr_src;
      dst_ip = strncpy inet_addrstrlen parser.addr_dst;
    }
    if same_layer layer ipv4
        then ok (record { payload = payload; payload_size = payload_size; artefacts = artefacts' })
        else if parser.proto == proto_tcp
        then Tcp.decode_until layer m payload payload_size artefacts'
        else if parser.proto == proto_udp
        then Udp.decode_until layer m payload payload_size artefacts'
        else terminate

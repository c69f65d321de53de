-- ===== src/Packet/Udp.antt =====
-- PacketParser/Udp: the UDP header.
pub mod Bounds
pub mod Wire
use timing_proxy.Base.{
  ℕ, not, Outcome, ok, invalid_argument, ◌>>=◌, ◌>>◌, throw_if, terminate_if, ltb,
}
use timing_proxy.Packet.Memory.{Memory, Pointer, advance, sub_size, load16, ntohs}
use timing_proxy.Packet.Types.{
  Layer, udp, same_layer, PacketParser, new_packet_parser, get_payload, get_payload_size, Artefacts,
  Decoded,
}

abbrev pub header_len : ℕ
header_len = 8

pub record UdpParser : Type 0 where
  pub base : PacketParser
  pub sport : ℕ
  pub dport : ℕ
  pub checksum : ℕ
  pub header_length : ℕ

abbrev pub new_udp_parser : UdpParser
new_udp_parser = record {
  base = new_packet_parser;
  sport = 0;
  dport = 0;
  checksum = 0;
  header_length = 0;
}

-- The member `header_length` keeps its value: the source never assigns it.
unfoldable pub parse_header : Memory → UdpParser → Pointer → ℕ → Outcome UdpParser
parse_header m this packet size = do
  throw_if (ltb size header_len) (invalid_argument "UDP header must be at least 8 bytes")
  uh_sport ← load16 m packet 0
  uh_dport ← load16 m packet 2
  uh_sum ← load16 m packet 6
  uh_len ← load16 m packet 4
  throw_if (ltb size (ntohs uh_len))
      (invalid_argument "UDP size field cannot contain bigger size than packet itself")
  ok (record this {
    base = record {
      packet = packet;
      payload = advance packet header_len;
      packet_size = size;
      payload_size = sub_size size header_len;
    };
    sport = ntohs uh_sport;
    dport = ntohs uh_dport;
    checksum = ntohs uh_sum;
  })

unfoldable pub get_src_port : UdpParser → ℕ
get_src_port this = this.sport

unfoldable pub get_dst_port : UdpParser → ℕ
get_dst_port this = this.dport

unfoldable pub decode_until : Layer → Memory → Pointer → ℕ → Artefacts → Outcome Decoded
unfolding get_payload get_payload_size get_src_port get_dst_port
decode_until layer m packet size artefacts = do
  terminate_if (not (same_layer layer udp))
  parser ← parse_header m new_udp_parser packet size
  ok (record {
    payload = get_payload parser.base;
    payload_size = get_payload_size parser.base;
    artefacts = record artefacts {
      payload_type = udp;
      src_port = get_src_port parser;
      dst_port = get_dst_port parser;
    };
  })

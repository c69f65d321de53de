-- ===== src/Packet/Tcp.antt =====
-- PacketParser/Tcp: the TCP header.
pub mod Bounds
pub mod Wire
use timing_proxy.Base.{
  ℕ, ◌*◌, ◌/◌, ◌%◌, not, Outcome, ok, invalid_argument, ◌>>=◌, ◌>>◌, throw_if, terminate_if, ltb,
}
use timing_proxy.Packet.Memory.{
  Memory, Pointer, advance, sub_size, load8, load16, load32, ntohs, ntohl,
}
use timing_proxy.Packet.Types.{
  Layer, tcp, same_layer, PacketParser, new_packet_parser, get_payload, get_payload_size, Artefacts,
  Decoded,
}

abbrev pub min_header_length : ℕ
min_header_length = 20

pub record TcpParser : Type 0 where
  pub base : PacketParser
  pub sport : ℕ
  pub dport : ℕ
  pub seq : ℕ
  pub ack : ℕ
  pub header_length : ℕ

abbrev pub new_tcp_parser : TcpParser
new_tcp_parser = record {
  base = new_packet_parser;
  sport = 0;
  dport = 0;
  seq = 0;
  ack = 0;
  header_length = 0;
}

-- The offsets are those of the fields of `struct tcp_header`.
unfoldable pub parse_header : Memory → TcpParser → Pointer → ℕ → Outcome TcpParser
parse_header m this packet size = do
  throw_if (ltb size min_header_length) (invalid_argument "TCP header must be at least 20 bytes")
  th_sport ← load16 m packet 0
  th_dport ← load16 m packet 2
  th_seq ← load32 m packet 4
  th_ack ← load32 m packet 8
  th_offx2 ← load8 m packet 12
  let header_length = th_offx2 / 16 % 16 * 4
  ok (record {
    base = record {
      packet = packet;
      payload = advance packet header_length;
      packet_size = size;
      payload_size = sub_size size header_length;
    };
    sport = ntohs th_sport;
    dport = ntohs th_dport;
    seq = ntohl th_seq;
    ack = ntohl th_ack;
    header_length = header_length;
  })

unfoldable pub get_src_port : TcpParser → ℕ
get_src_port this = this.sport

unfoldable pub get_dst_port : TcpParser → ℕ
get_dst_port this = this.dport

unfoldable pub decode_until : Layer → Memory → Pointer → ℕ → Artefacts → Outcome Decoded
unfolding get_payload get_payload_size get_src_port get_dst_port
decode_until layer m packet size artefacts = do
  terminate_if (not (same_layer layer tcp))
  parser ← parse_header m new_tcp_parser packet size
  ok (record {
    payload = get_payload parser.base;
    payload_size = get_payload_size parser.base;
    artefacts = record artefacts {
      payload_type = tcp;
      src_port = get_src_port parser;
      dst_port = get_dst_port parser;
    };
  })

-- ===== src/Packet/Ethernet.antt =====
-- PacketParser/Ethernet, and the entry point `PacketParser::decodeUntil`.
pub mod Bounds
pub mod Wire
pub mod Wire6
use timing_proxy.Base.{
  ℕ, none, Outcome, ok, terminate, invalid_argument, ◌>>=◌, ◌>>◌, throw_if, ltb, ◌==◌,
  if◌then◌else◌,
}
use timing_proxy.Packet.Memory.{Memory, Pointer, advance, sub_size, load16, ntohs}
use timing_proxy.Packet.Types.{
  Layer, ethernet, same_layer, PacketParser, new_packet_parser, get_payload, get_payload_size,
  Artefacts, Decoded, Inet,
}
use timing_proxy.Packet.Ipv4
use timing_proxy.Packet.Ipv6

abbrev pub header_size : ℕ
header_size = 14

-- `enum EtherType`: a cast keeps any value of the header's field.
abbrev pub ether_type_ipv4 : ℕ
ether_type_ipv4 = 0x0800

abbrev pub ether_type_ipv6 : ℕ
ether_type_ipv6 = 0x86dd

abbrev pub ether_type_other : ℕ
ether_type_other = 0x0

pub record EthernetParser : Type 0 where
  pub base : PacketParser
  pub dhost_addr : Pointer
  pub shost_addr : Pointer
  pub type : ℕ

abbrev pub new_ethernet_parser : EthernetParser
new_ethernet_parser = record {
  base = new_packet_parser;
  dhost_addr = none;
  shost_addr = none;
  type = ether_type_other;
}

-- The offsets are those of the fields of `struct ethernet_header`.
unfoldable pub parse_header : Memory → EthernetParser → Pointer → ℕ → Outcome EthernetParser
parse_header m this packet size = do
  throw_if (ltb size header_size) (invalid_argument "Packet size too small for header")
  ether_type ← load16 m packet 12
  ok (record {
    base = record {
      packet = packet;
      payload = advance packet header_size;
      packet_size = size;
      payload_size = sub_size size header_size;
    };
    dhost_addr = advance packet 0;
    shost_addr = advance packet 6;
    type = ntohs ether_type;
  })

module _ (inet : Inet) where
  unfoldable pub decode_until : Layer → Memory → Pointer → ℕ → Artefacts → Outcome Decoded
  unfolding get_payload get_payload_size
  decode_until layer m packet size artefacts = do
    parser ← parse_header m new_ethernet_parser packet size
    let payload = get_payload parser.base
    let payload_size = get_payload_size parser.base
    if same_layer layer ethernet
        then ok (record { payload = payload; payload_size = payload_size; artefacts = artefacts })
        else if parser.type == ether_type_ipv4
        then Ipv4.decode_until inet layer m payload payload_size artefacts
        else if parser.type == ether_type_ipv6
        then Ipv6.decode_until inet layer m payload payload_size artefacts
        else terminate

  -- `PacketParser::decodeUntil`
  unfoldable pub decode_packet : Layer → Memory → Pointer → ℕ → Artefacts → Outcome Decoded
  decode_packet = decode_until

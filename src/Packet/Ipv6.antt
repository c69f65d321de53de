-- ===== src/Packet/Ipv6.antt =====
-- PacketParser/Ipv6: the IPv6 header and the chain of its extension headers.
pub mod Bounds
pub mod Extensions
pub mod Wire
use timing_proxy.Base.{
  ℕ, zero, suc, ◌+◌, ◌-◌, ◌*◌, ◌/◌, ◌%◌, Bool, true, false, not, ◌||◌, none, List, [], ◌∷◌, Outcome,
  ok, throws, terminate, out_of_fuel, invalid_argument, out_of_range, ◌>>=◌, ◌>>◌, throw_if,
  terminate_if, or_throw, ltb, ◌==◌, if◌then◌else◌,
}
use timing_proxy.Packet.Memory.{Memory, Pointer, advance, load8, load16, load32, load_bytes, ntohs}
use timing_proxy.Packet.Types.{
  Layer, ipv6, same_layer, PacketParser, new_packet_parser, get_payload, get_payload_size,
  Artefacts, Decoded, strncpy, Inet,
}
use timing_proxy.Packet.Tcp
use timing_proxy.Packet.Udp

abbrev pub main_header_size : ℕ
main_header_size = 40

abbrev pub inet6_addrstrlen : ℕ
inet6_addrstrlen = 46

-- `enum NextHeaderType`: a cast keeps any value of the header's byte.
abbrev pub hopopt : ℕ
hopopt = 0x00

abbrev pub next_tcp : ℕ
next_tcp = 0x06

abbrev pub next_udp : ℕ
next_udp = 0x11

abbrev pub ipv6_route : ℕ
ipv6_route = 0x2b

abbrev pub ipv6_frag : ℕ
ipv6_frag = 0x2c

abbrev pub esp : ℕ
esp = 0x32

abbrev pub ah : ℕ
ah = 0x33

abbrev pub ipv6_nonxt : ℕ
ipv6_nonxt = 0x3b

abbrev pub ipv6_opts : ℕ
ipv6_opts = 0x3c

abbrev pub mobility : ℕ
mobility = 0x87

abbrev pub hip : ℕ
hip = 0x8b

abbrev pub shim6 : ℕ
shim6 = 0x8c

abbrev pub tst1 : ℕ
tst1 = 0xfd

abbrev pub tst2 : ℕ
tst2 = 0xfe

pub data NextHeaderKind : Type 0 where
  not_implemented payload_header extension_header no_next : NextHeaderKind

abbrev pub header_type_map : List (ℕ × NextHeaderKind)
header_type_map =
    (hopopt, extension_header)
    ∷ (next_tcp, payload_header)
    ∷ (next_udp, payload_header)
    ∷ (ipv6_route, extension_header)
    ∷ (ipv6_frag, extension_header)
    ∷ (esp, extension_header)
    ∷ (ah, extension_header)
    ∷ (ipv6_nonxt, no_next)
    ∷ (ipv6_opts, extension_header)
    ∷ (mobility, extension_header)
    ∷ (hip, extension_header)
    ∷ (shim6, extension_header)
    ∷ (tst1, extension_header)
    ∷ (tst2, extension_header)
    ∷ []

-- `std::map::at`
abbrev pub map_at : List (ℕ × NextHeaderKind) → ℕ → Outcome NextHeaderKind
map_at [] k = throws (out_of_range "map::at")
map_at ((j, v) ∷ m) k = if j == k then ok v else map_at m k

abbrev is_extension : NextHeaderKind → Bool
is_extension extension_header = true
is_extension _ = false

unfoldable pub is_extension_header : ℕ → Outcome Bool
is_extension_header next_hdr = do kind ← map_at header_type_map next_hdr; ok (is_extension kind)

pub record Ipv6Parser : Type 0 where
  pub base : PacketParser
  pub hop_limit : ℕ
  pub next_hdr : ℕ
  pub addr_src : List ℕ
  pub addr_dst : List ℕ

-- The members with no initialiser are given again before they are read.
abbrev pub new_ipv6_parser : Ipv6Parser
new_ipv6_parser = record {
  base = new_packet_parser;
  hop_limit = 0;
  next_hdr = 0;
  addr_src = [];
  addr_dst = [];
}

-- Where the loop over the extension headers stands.
pub record Chain : Type 0 where
  pub next_hdr : ℕ
  pub current_header : Pointer
  pub payload_size : ℕ

-- The body of the `while`.
unfoldable pub skip_header : Memory → Chain → Outcome Chain
skip_header m c = do
  terminate_if (ltb c.payload_size 64)
  next_hdr ← load8 m c.current_header 0
  hdr_len ← load8 m c.current_header 1
  let offset_to_next_header = hdr_len * 8 + 8
  terminate_if (ltb c.payload_size offset_to_next_header)
  ok (record {
    next_hdr = next_hdr;
    current_header = advance c.current_header offset_to_next_header;
    payload_size = c.payload_size - offset_to_next_header;
  })

unfoldable pub extension_headers : ℕ → Memory → Chain → Outcome Chain
extension_headers zero m c = out_of_fuel
extension_headers (suc fuel) m c = do
  more ← is_extension_header c.next_hdr
  elim more [ true ↦ skip_header m c >>= λ c'. extension_headers fuel m c' | false ↦ ok c ]

module _ (inet : Inet) where
  -- The offsets are those of the fields of `struct ipv6_header`. Each round of the loop takes at
  -- least 8 bytes off the payload, so its size is fuel enough.
  unfoldable pub parse_header : Memory → Ipv6Parser → Pointer → ℕ → Outcome Ipv6Parser
  parse_header m this packet size = do
    throw_if (ltb size main_header_size) (invalid_argument "Ipv6 header must be at least 40 bytes")
    ver_trafcl_flow ← load32 m packet 0
    terminate_if (not (ver_trafcl_flow % 256 / 16 == 6))
    payload_len ← load16 m packet 4
    let given_size = ntohs payload_len
    throw_if (ltb size 40 || ltb (size - 40) given_size)
        (invalid_argument "payload size cannot be bigger than payload itself")
    hop_limit ← load8 m packet 7
    src ← load_bytes m packet 8 16
    addr_src ← or_throw (inet.ntop6 src) (invalid_argument "Packet has invalid ipv6 source address")
    dst ← load_bytes m packet 24 16
    addr_dst ←
        or_throw (inet.ntop6 dst) (invalid_argument "Packet has invalid ipv6 destination address")
    next_hdr ← load8 m packet 6
    c ← extension_headers (suc given_size) m (record {
      next_hdr = next_hdr;
      current_header = advance packet main_header_size;
      payload_size = given_size;
    })
    let no_payload = c.next_hdr == ipv6_nonxt
    ok (record {
      base = record {
        packet = packet;
        payload = if no_payload then none else c.current_header;
        packet_size = size;
        payload_size = if no_payload then 0 else c.payload_size;
      };
      hop_limit = hop_limit;
      next_hdr = c.next_hdr;
      addr_src = addr_src;
      addr_dst = addr_dst;
    })

  unfoldable pub decode_until : Layer → Memory → Pointer → ℕ → Artefacts → Outcome Decoded
  unfolding get_payload get_payload_size
  decode_until layer m packet size artefacts = do
    parser ← parse_header m new_ipv6_parser packet size
    let payload = get_payload parser.base
    let payload_size = get_payload_size parser.base
    let artefacts' = record artefacts {
      ip_type = ipv6;
      src_ip = strncpy inet6_addrstrlen parser.addr_src;
      dst_ip = strncpy inet6_addrstrlen parser.addr_dst;
    }
    if same_layer layer ipv6
        then ok (record { payload = payload; payload_size = payload_size; artefacts = artefacts' })
        else if parser.next_hdr == next_tcp
        then Tcp.decode_until layer m payload payload_size artefacts'
        else if parser.next_hdr == next_udp
        then Udp.decode_until layer m payload payload_size artefacts'
        else terminate

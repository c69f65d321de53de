-- ===== src/Packet/Ethernet/Wire.antt =====
-- Whole frames: `PacketParser::decodeUntil` finds the payload that was put into them.
use timing_proxy.Base.{
  ℕ, ◌+◌, ◌*◌, ◌/◌, ◌%◌, ◌^◌, ◌<◌, ◌≤◌, ◌≡◌, refl, ◌∙◌, subst, false, ltb, some, List, [], ◌∷◌,
  ◌++◌, length, length-append, arith, ok,
}
use timing_proxy.Packet.Memory.{Memory, sub_size, load16}
use timing_proxy.Packet.Memory.Holds.{
  Holds, Holds-left, Holds-right, Holds-self, load16-Holds, load16-from_zero, ntohs-swapped,
  swapped,
}
use timing_proxy.Packet.Types.{Layer, ethernet, same_layer, tcp, Artefacts, Decoded, Inet}
use timing_proxy.Packet.Ipv4
use timing_proxy.Packet.Ipv6
use timing_proxy.Packet.Tcp.Wire as TcpWire
use timing_proxy.Packet.Ipv4.Wire as Ipv4Wire
use timing_proxy.Packet.Ipv4.Wire.{addressed}
use timing_proxy.Packet.Ethernet.{
  EthernetParser, parse_header, decode_until, decode_packet, new_ethernet_parser,
}
use timing_proxy.Packet.Wire.{
  EthernetHeader, IsEthernetHeader, print_ethernet, Ipv4Header, IsIpv4Header, print_ipv4,
  print_address4, TcpHeader, IsTcpHeader, print_tcp,
}

-- What the parser holds after a header.
abbrev parsed : EthernetHeader → ℕ → EthernetParser
parsed h size = record {
  base = record {
    packet = some 0;
    payload = some 14;
    packet_size = size;
    payload_size = sub_size size 14;
  };
  dhost_addr = some 0;
  shost_addr = some 6;
  type = h.type;
}

module _ (m : Memory) (size : ℕ) (h : EthernetHeader) (good : IsEthernetHeader h)
    (held : Holds m 0 (print_ethernet h)) (big : 14 ≤ size) where
  -- The type stands behind the two addresses.
  held_type : Holds m 12 ((h.type / 256) ∷ (h.type % 256) ∷ [])
  held_type =
      let e : 0 + length (h.dhost ++ h.shost) ≡ 12 =
        omega (arith, length-append h.dhost h.shost, good.dhost, good.shost) in
      subst (λ (n : ℕ). Holds m n ((h.type / 256) ∷ (h.type % 256) ∷ [])) e
        (Holds-right m 0 (h.dhost ++ h.shost) _ held)

  parse_header-print :
      (this : EthernetParser) → parse_header m this (some 0) size ≡ ok (parsed h size)
  unfolding parse_header
  parse_header-print this =
      let size_ok : ltb size 14 ≡ false = ground arith in
      let word : load16 m (some 0) 12 ≡ ok (swapped h.type) =
        load16-from_zero m 12
        ∙ load16-Holds m 12 ((h.type / 256) ∷ (h.type % 256) ∷ []) held_type 0 h.type refl refl in
      rw (size_ok, word, ntohs-swapped h.type good.type)

  pub decode_packet-ipv4 :
      (inet : Inet) (layer : Layer) (a : Artefacts)
      → same_layer layer ethernet ≡ false
      → h.type ≡ 0x0800
      → decode_packet inet layer m (some 0) size a
        ≡ Ipv4.decode_until inet layer m (some 14) (sub_size size 14) a
  unfolding decode_packet decode_until
  decode_packet-ipv4 inet layer a deeper e = rw (parse_header-print new_ethernet_parser, deeper, e)

  pub decode_packet-ipv6 :
      (inet : Inet) (layer : Layer) (a : Artefacts)
      → same_layer layer ethernet ≡ false
      → h.type ≡ 0x86dd
      → decode_packet inet layer m (some 0) size a
        ≡ Ipv6.decode_until inet layer m (some 14) (sub_size size 14) a
  unfolding decode_packet decode_until
  decode_packet-ipv6 inet layer a deeper e = rw (parse_header-print new_ethernet_parser, deeper, e)

-- A frame: its header, the IP packet, and what the sender padded it with.
abbrev pub frame4 : EthernetHeader → Ipv4Header → List ℕ → List ℕ → List ℕ
frame4 eth ip body trailer = print_ethernet eth ++ (print_ipv4 ip ++ (body ++ trailer))

pub length-print_ethernet :
    (eth : EthernetHeader) → IsEthernetHeader eth → length (print_ethernet eth) ≡ 14
length-print_ethernet eth good = omega (
  arith,
  length-append (eth.dhost ++ eth.shost) ((eth.type / 256) ∷ (eth.type % 256) ∷ []),
  length-append eth.dhost eth.shost,
  good.dhost,
  good.shost,
)

module _ (eth : EthernetHeader) (ip : Ipv4Header) (body trailer : List ℕ)
    (good_eth : IsEthernetHeader eth) (good_ip : IsIpv4Header ip) where
  held_eth : Holds (frame4 eth ip body trailer) 0 (print_ethernet eth)
  held_eth =
      Holds-left _ 0 (print_ethernet eth) (print_ipv4 ip ++ (body ++ trailer))
        (Holds-self (frame4 eth ip body trailer))

  held_rest : Holds (frame4 eth ip body trailer) 14 (print_ipv4 ip ++ (body ++ trailer))
  held_rest =
      let e : 0 + length (print_ethernet eth) ≡ 14 =
        omega (arith, length-print_ethernet eth good_eth) in
      subst (λ (n : ℕ). Holds (frame4 eth ip body trailer) n (print_ipv4 ip ++ (body ++ trailer))) e
        (Holds-right _ 0 (print_ethernet eth) _ (Holds-self (frame4 eth ip body trailer)))

  held_ip : Holds (frame4 eth ip body trailer) 14 (print_ipv4 ip)
  held_ip = Holds-left _ 14 (print_ipv4 ip) (body ++ trailer) held_rest

  held_body : Holds (frame4 eth ip body trailer) (14 + ip.ihl * 4) body
  held_body =
      let e : 14 + length (print_ipv4 ip) ≡ 14 + ip.ihl * 4 = omega (arith, good_ip.words) in
      Holds-left _ (14 + ip.ihl * 4) body trailer (
        subst (λ (n : ℕ). Holds (frame4 eth ip body trailer) n (body ++ trailer)) e
          (Holds-right _ 14 (print_ipv4 ip) (body ++ trailer) held_rest))

  length-frame4 :
      length (frame4 eth ip body trailer) ≡ 14 + ip.ihl * 4 + length body + length trailer
  length-frame4 = omega (
    arith,
    length-append (print_ethernet eth) (print_ipv4 ip ++ (body ++ trailer)),
    length-append (print_ipv4 ip) (body ++ trailer),
    length-append body trailer,
    length-print_ethernet eth good_eth,
    good_ip.words,
  )

-- What decoding a frame with a TCP segment gives, before anything is known of the two lengths.
abbrev pub decoded4_tcp : Ipv4Header → TcpHeader → List ℕ → List ℕ → Artefacts → Decoded
decoded4_tcp ip h src dst a = record {
  payload = some (14 + ip.ihl * 4 + h.offset * 4);
  payload_size = sub_size (sub_size ip.total_length (ip.ihl * 4)) (h.offset * 4);
  artefacts = record (addressed src dst a) {
    payload_type = tcp;
    src_port = h.sport;
    dst_port = h.dport;
  };
}

module _ (inet : Inet) (eth : EthernetHeader) (ip : Ipv4Header) (h : TcpHeader)
    (payload trailer : List ℕ) (good_eth : IsEthernetHeader eth) (good_ip : IsIpv4Header ip)
    (good_tcp : IsTcpHeader h) (padded : length payload + length trailer < 2 ^ 32) where
  -- The payload stands behind the three headers.
  pub held_payload :
      Holds
        (frame4 eth ip (print_tcp h ++ payload) trailer)
        (14 + ip.ihl * 4 + h.offset * 4)
        payload
  held_payload =
      let at : 14 + ip.ihl * 4 + length (print_tcp h) ≡ 14 + ip.ihl * 4 + h.offset * 4 =
        omega (arith, good_tcp.words) in
      let frame = frame4 eth ip (print_tcp h ++ payload) trailer in
      subst (λ (n : ℕ). Holds frame n payload) at
        (Holds-right frame (14 + ip.ihl * 4) (print_tcp h) payload
          (held_body eth ip (print_tcp h ++ payload) trailer good_eth good_ip))

  long_enough : 20 ≤ sub_size (length (frame4 eth ip (print_tcp h ++ payload) trailer)) 14
  long_enough = omega (
    arith,
    length-frame4 eth ip (print_tcp h ++ payload) trailer good_eth good_ip,
    length-append (print_tcp h) payload,
    good_ip.words,
    good_ip.ihl,
    good_tcp.words,
    good_tcp.offset,
  )

  pub decode_packet-print :
      (src dst : List ℕ) (a : Artefacts)
      → eth.type ≡ 0x0800
      → ip.protocol ≡ 6
      → 20 ≤ sub_size ip.total_length (ip.ihl * 4)
      → inet.ntop4 (print_address4 ip.src) ≡ some src
      → inet.ntop4 (print_address4 ip.dst) ≡ some dst
      → let frame = frame4 eth ip (print_tcp h ++ payload) trailer in
        decode_packet inet tcp frame (some 0) (length frame) a ≡ ok (decoded4_tcp ip h src dst a)
  decode_packet-print src dst a type proto room src_ok dst_ok =
      let body = print_tcp h ++ payload in
      let frame = frame4 eth ip body trailer in
      rw (
        decode_packet-ipv4 frame (length frame) eth good_eth
            (held_eth eth ip body trailer good_eth good_ip)
            (omega (arith, length-frame4 eth ip body trailer good_eth good_ip)) inet tcp a refl
            type,
        Ipv4Wire.decode_until-tcp inet frame 14 (sub_size (length frame) 14) ip good_ip
            (held_ip eth ip body trailer good_eth good_ip) long_enough src dst src_ok dst_ok a
            proto,
        TcpWire.decode_until-print frame (14 + ip.ihl * 4) (sub_size ip.total_length (ip.ihl * 4)) h
            good_tcp
            (Holds-left frame (14 + ip.ihl * 4) (print_tcp h) payload
              (held_body eth ip body trailer good_eth good_ip))
            room (addressed src dst a),
      )

-- A TCP segment in an IPv4 packet in a frame: decoding gives the address of the payload in the frame
-- and its length, not the trailer's, and the addresses and ports of the headers.
pub decode_packet-frame4_tcp :
    (inet : Inet) (eth : EthernetHeader) (ip : Ipv4Header) (h : TcpHeader)
    (payload trailer : List ℕ) (src dst : List ℕ) (a : Artefacts)
    → IsEthernetHeader eth
    → IsIpv4Header ip
    → IsTcpHeader h
    → eth.type ≡ 0x0800
    → ip.protocol ≡ 6
    → ip.total_length ≡ ip.ihl * 4 + (h.offset * 4 + length payload)
    → length payload + length trailer < 2 ^ 32
    → inet.ntop4 (print_address4 ip.src) ≡ some src
    → inet.ntop4 (print_address4 ip.dst) ≡ some dst
    → let frame = frame4 eth ip (print_tcp h ++ payload) trailer in
      let start = 14 + ip.ihl * 4 + h.offset * 4 in
      (decode_packet inet tcp frame (some 0) (length frame) a
        ≡ ok (record {
          payload = some start;
          payload_size = length payload;
          artefacts = record (addressed src dst a) {
            payload_type = tcp;
            src_port = h.sport;
            dst_port = h.dport;
          };
        }))
      × Holds frame start payload
decode_packet-frame4_tcp inet eth ip h payload trailer src dst a good_eth good_ip good_tcp type
      proto total padded src_ok dst_ok =
    let size : sub_size (sub_size ip.total_length (ip.ihl * 4)) (h.offset * 4) ≡ length payload =
      omega (arith, good_ip.total_length, total) in
    let room : 20 ≤ sub_size ip.total_length (ip.ihl * 4) =
      omega (arith, good_ip.total_length, total, good_tcp.words) in
    (
      rw (← size) (
          decode_packet-print inet eth ip h payload trailer good_eth good_ip good_tcp padded src dst
            a type proto room src_ok dst_ok),
      held_payload inet eth ip h payload trailer good_eth good_ip good_tcp padded,
    )

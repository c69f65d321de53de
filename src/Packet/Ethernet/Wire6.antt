-- ===== src/Packet/Ethernet/Wire6.antt =====
-- Whole IPv6 frames: `PacketParser::decodeUntil` finds the payload that was put into them.
use timing_proxy.Base.{
  ℕ, ◌+◌, ◌*◌, ◌^◌, ◌<◌, ◌≡◌, refl, ◌∙◌, subst, some, List, ◌++◌, length, length-append, arith, ok,
  terminate, true,
}
use timing_proxy.Packet.Memory.{sub_size}
use timing_proxy.Packet.Memory.Holds.{Holds, Holds-left, Holds-right, Holds-self}
use timing_proxy.Packet.Types.{tcp, Artefacts, Inet}
use timing_proxy.Packet.Tcp.Wire as TcpWire
use timing_proxy.Packet.Ipv6.Wire as Ipv6Wire
use timing_proxy.Packet.Ipv6.Wire.{addressed, length-print_ipv6}
use timing_proxy.Packet.Ipv6.{is_extension_header}
use timing_proxy.Packet.Ipv6.Extensions.{IsChain}
use timing_proxy.Packet.Ethernet.{decode_packet}
use timing_proxy.Packet.Ethernet.Wire.{length-print_ethernet, decode_packet-ipv6}
use timing_proxy.Packet.Wire.{
  EthernetHeader, IsEthernetHeader, print_ethernet, Ipv6Header, IsIpv6Header, print_ipv6, ExtHeader,
  first_type, print_chain, TcpHeader, IsTcpHeader, print_tcp,
}

-- A frame: its header, the IP header with its chain, what follows it, and what the sender padded it with.
abbrev pub frame6 : EthernetHeader → Ipv6Header → List ExtHeader → List ℕ → List ℕ → List ℕ
frame6 eth ip es body trailer =
    print_ethernet eth ++ ((print_ipv6 ip ++ print_chain es 6) ++ (body ++ trailer))

module _ (eth : EthernetHeader) (ip : Ipv6Header) (es : List ExtHeader) (body trailer : List ℕ)
    (good_eth : IsEthernetHeader eth) (good_ip : IsIpv6Header ip) where
  held_eth : Holds (frame6 eth ip es body trailer) 0 (print_ethernet eth)
  held_eth =
      Holds-left _ 0 (print_ethernet eth) ((print_ipv6 ip ++ print_chain es 6) ++ (body ++ trailer))
        (Holds-self (frame6 eth ip es body trailer))

  held_rest :
      Holds
        (frame6 eth ip es body trailer)
        14
        ((print_ipv6 ip ++ print_chain es 6) ++ (body ++ trailer))
  held_rest =
      let there : 0 + length (print_ethernet eth) ≡ 14 =
        omega (arith, length-print_ethernet eth good_eth) in
      subst
        (λ (n : ℕ).
          Holds (frame6 eth ip es body trailer) n
            ((print_ipv6 ip ++ print_chain es 6) ++ (body ++ trailer)))
        there (Holds-right _ 0 (print_ethernet eth) _ (Holds-self (frame6 eth ip es body trailer)))

  held_ip : Holds (frame6 eth ip es body trailer) 14 (print_ipv6 ip ++ print_chain es 6)
  held_ip = Holds-left _ 14 (print_ipv6 ip ++ print_chain es 6) (body ++ trailer) held_rest

  held_body : Holds (frame6 eth ip es body trailer) (14 + 40 + length (print_chain es 6)) body
  held_body =
      let there : 14 + length (print_ipv6 ip ++ print_chain es 6)
          ≡ 14 + 40 + length (print_chain es 6) =
        omega
          (arith, length-append (print_ipv6 ip) (print_chain es 6), length-print_ipv6 ip good_ip) in
      Holds-left _ (14 + 40 + length (print_chain es 6)) body trailer (
        subst (λ (n : ℕ). Holds (frame6 eth ip es body trailer) n (body ++ trailer)) there
          (Holds-right _ 14 (print_ipv6 ip ++ print_chain es 6) (body ++ trailer) held_rest))

  length-frame6 :
      length (frame6 eth ip es body trailer)
      ≡ 14 + 40 + length (print_chain es 6) + length body + length trailer
  length-frame6 = omega (
    arith,
    length-append (print_ethernet eth) ((print_ipv6 ip ++ print_chain es 6) ++ (body ++ trailer)),
    length-append (print_ipv6 ip ++ print_chain es 6) (body ++ trailer),
    length-append (print_ipv6 ip) (print_chain es 6),
    length-append body trailer,
    length-print_ethernet eth good_eth,
    length-print_ipv6 ip good_ip,
  )

-- A TCP segment in an IPv6 packet in a frame, behind a chain of extension headers of types that the
-- parser knows, each followed by what completes 64 bytes: decoding gives the address of the payload in
-- the frame and its length, not the trailer's, and the addresses and ports of the headers.
pub decode_packet-frame6_tcp :
    (inet : Inet) (eth : EthernetHeader) (ip : Ipv6Header) (es : List ExtHeader) (h : TcpHeader)
    (payload trailer : List ℕ) (src dst : List ℕ) (a : Artefacts)
    → IsEthernetHeader eth
    → IsIpv6Header ip
    → IsTcpHeader h
    → eth.type ≡ 0x86dd
    → ip.next_header ≡ first_type es 6
    → ip.payload_length ≡ length (print_chain es 6) + (h.offset * 4 + length payload)
    → IsChain 6 (h.offset * 4 + length payload) es
    → length payload + length trailer < 2 ^ 32
    → inet.ntop6 ip.src ≡ some src
    → inet.ntop6 ip.dst ≡ some dst
    → let frame = frame6 eth ip es (print_tcp h ++ payload) trailer in
      let start = 14 + 40 + length (print_chain es 6) + h.offset * 4 in
      (decode_packet inet tcp frame (some 0) (length frame) a
        ≡ ok (record {
          payload = some start;
          payload_size = length payload;
          artefacts = record (addressed src dst a) {
            payload_type = tcp;
            src_port = h.sport;
            dst_port = h.dport;
          };
        }))
      × Holds frame start payload
decode_packet-frame6_tcp inet eth ip es h payload trailer src dst a good_eth good_ip good_tcp type
      next total chain padded src_ok dst_ok =
    let body = print_tcp h ++ payload in
    let frame = frame6 eth ip es body trailer in
    let at = 14 + 40 + length (print_chain es 6) in
    let size = h.offset * 4 + length payload in
    let held = held_body eth ip es body trailer good_eth good_ip in
    let left : sub_size size (h.offset * 4) ≡ length payload = omega arith in
    let tcp_at : at + length (print_tcp h) ≡ at + h.offset * 4 = omega (arith, good_tcp.words) in
    (
      rw
          (
            decode_packet-ipv6 frame (length frame) eth good_eth
                (held_eth eth ip es body trailer good_eth good_ip)
                (omega (arith, length-frame6 eth ip es body trailer good_eth good_ip)) inet tcp a
                refl type,
            Ipv6Wire.decode_until-tcp inet frame 14 (sub_size (length frame) 14) ip es good_ip
                (held_ip eth ip es body trailer good_eth good_ip) next
                (omega (
                  arith,
                  length-frame6 eth ip es body trailer good_eth good_ip,
                  length-append (print_tcp h) payload,
                  good_tcp.words,
                  good_tcp.offset,
                  good_ip.payload_length,
                  total,
                ))
                src dst src_ok dst_ok size a total chain,
            TcpWire.decode_until-print frame at size h good_tcp
                (Holds-left frame at (print_tcp h) payload held) (omega (arith, good_tcp.words))
                (addressed src dst a),
            left,
          )
          refl,
      subst (λ (n : ℕ). Holds frame n payload) tcp_at
          (Holds-right frame at (print_tcp h) payload held),
    )

-- An IPv6 packet in a frame whose first header behind the fixed one is an extension header of a type
-- that the parser knows and which is shorter than 64 bytes from there on makes decoding call
-- std::terminate, whatever the chain and what is behind it are.
pub decode_packet-short_chain :
    (inet : Inet) (eth : EthernetHeader) (ip : Ipv6Header) (es : List ExtHeader)
    (body trailer : List ℕ) (src dst : List ℕ) (a : Artefacts)
    → IsEthernetHeader eth
    → IsIpv6Header ip
    → eth.type ≡ 0x86dd
    → ip.next_header ≡ first_type es 6
    → is_extension_header ip.next_header ≡ ok true
    → ip.payload_length ≡ length (print_chain es 6) + length body
    → ip.payload_length < 64
    → length trailer < 2 ^ 32
    → inet.ntop6 ip.src ≡ some src
    → inet.ntop6 ip.dst ≡ some dst
    → let frame = frame6 eth ip es body trailer in
      decode_packet inet tcp frame (some 0) (length frame) a ≡ terminate
decode_packet-short_chain inet eth ip es body trailer src dst a good_eth good_ip type next known
      total short padded src_ok dst_ok =
    let frame = frame6 eth ip es body trailer in
    let all = length-frame6 eth ip es body trailer good_eth good_ip in
    decode_packet-ipv6 frame (length frame) eth good_eth
      (held_eth eth ip es body trailer good_eth good_ip) (omega (arith, all)) inet tcp a refl type
    ∙ Ipv6Wire.decode_until-short inet frame 14 (sub_size (length frame) 14) ip es good_ip
        (held_ip eth ip es body trailer good_eth good_ip) next (omega (arith, all, total)) src dst
        src_ok dst_ok a known short

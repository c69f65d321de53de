-- ===== src/Pcap/Queue/Frames.antt =====
-- The callback on whole TCP frames.
use timing_proxy.Base.{
  ℕ, ◌+◌, ◌*◌, ◌^◌, ◌≤◌, ◌<◌, ◌≡◌, ◌⊎◌, sym, subst, false, ◌&&◌, List, [], ◌++◌, length, take, some,
  ok, throws, terminate, invalid_argument, ltb, ◌==◌, if◌then◌else◌, arith,
}
use timing_proxy.Packet.Memory.{Memory, sub_size, load_bytes}
use timing_proxy.Packet.Memory.Holds.{Holds, load_bytes-Holds}
use timing_proxy.Packet.Types.{tcp, Inet, Decoded, new_artefacts}
use timing_proxy.Packet.Wire.{
  EthernetHeader, IsEthernetHeader, Ipv4Header, IsIpv4Header, TcpHeader, IsTcpHeader, print_tcp,
  print_address4,
}
use timing_proxy.Packet.Ethernet.{decode_packet}
use timing_proxy.Packet.Ethernet.Wire.{frame4, decoded4_tcp, decode_packet-print, held_payload}
use timing_proxy.Pcap.Packets.{PacketDirection, destination_remote, source_remote, same_bytes}
use timing_proxy.Pcap.UserData.{UserData}
use timing_proxy.Pcap.Callback.{PacketHeader, direction_of, store, handle_packet, linktype_ethernet}
use timing_proxy.Pcap.Queue.View.{IsValid}
use timing_proxy.Pcap.Queue.Push.{IsFull, Pushed, stored, push-Pushed}

-- The callback takes Ethernet packets.
pub record IsListening (u : UserData) : Type 0 where
  pub running : u.stop_loop ≡ false
  pub link : u.linktype ≡ linktype_ethernet

-- The direction that the callback gives to a TCP segment.
abbrev pub direction_to : UserData → List ℕ → ℕ → PacketDirection
direction_to u dst port =
    if same_bytes u.remote_host (take 16 dst) && (u.remote_port == port)
    then destination_remote
    else source_remote

handle_packet-decoded :
    (inet : Inet) (u : UserData) (header : PacketHeader) (packet : Memory) (d : Decoded)
    → IsListening u
    → decode_packet inet tcp packet (some 0) header.len (new_artefacts [] []) ≡ ok d
    → handle_packet inet u header packet ≡ store u header packet d
unfolding handle_packet
handle_packet-decoded inet u header packet d l e = ground arith

module _ (inet : Inet) (eth : EthernetHeader) (ip : Ipv4Header) (h : TcpHeader)
    (payload trailer : List ℕ) (src dst : List ℕ) (good_eth : IsEthernetHeader eth)
    (good_ip : IsIpv4Header ip) (good_tcp : IsTcpHeader h) (type : eth.type ≡ 0x0800)
    (proto : ip.protocol ≡ 6) (padded : length payload + length trailer < 2 ^ 32)
    (src_ok : inet.ntop4 (print_address4 ip.src) ≡ some src)
    (dst_ok : inet.ntop4 (print_address4 ip.dst) ≡ some dst) (u : UserData) (header : PacketHeader)
    (whole : header.len ≡ length (frame4 eth ip (print_tcp h ++ payload) trailer))
    (listening : IsListening u) where
  frame_stored :
      20 ≤ sub_size ip.total_length (ip.ihl * 4)
      → handle_packet inet u header (frame4 eth ip (print_tcp h ++ payload) trailer)
        ≡ store u header
            (frame4 eth ip (print_tcp h ++ payload) trailer)
            (decoded4_tcp ip h src dst (new_artefacts [] []))
  frame_stored room = handle_packet-decoded inet u header _ _ listening (
      rw whole (
        decode_packet-print inet eth ip h payload trailer good_eth good_ip good_tcp padded src dst
          (new_artefacts [] []) type proto room src_ok dst_ok))

  -- A whole TCP frame with 1 to 1500 bytes of payload puts those bytes at the end of the queue, with
  -- the time at which it was captured and the direction that its destination shows; but std::terminate
  -- is called if both buffers are taken.
  pub handle_packet-frame4_tcp :
      ip.total_length ≡ ip.ihl * 4 + (h.offset * 4 + length payload)
      → 0 < length payload
      → length payload ≤ 1500
      → IsValid u
      → let run = handle_packet inet u header (frame4 eth ip (print_tcp h ++ payload) trailer) in
        (IsFull u × (run ≡ terminate))
        ⊎ ((u' : UserData) × (run ≡ ok u')
            × Pushed u (stored payload (direction_to u dst h.dport) header.ts) u')
  unfolding store direction_of
  handle_packet-frame4_tcp total some_bytes short v =
      let start = 14 + ip.ihl * 4 + h.offset * 4 in
      let frame = frame4 eth ip (print_tcp h ++ payload) trailer in
      let size : sub_size (sub_size ip.total_length (ip.ihl * 4)) (h.offset * 4) ≡ length payload =
        omega (arith, good_ip.total_length, total) in
      let room : 20 ≤ sub_size ip.total_length (ip.ihl * 4) =
        omega (arith, good_ip.total_length, total, good_tcp.words) in
      let fits : ltb 1500 (length payload) ≡ false = ground arith in
      let not_empty : (length payload == 0) ≡ false = ground arith in
      let from : start + 0 ≡ start = omega arith in
      let loaded : load_bytes frame (some start) 0 (length payload) ≡ ok payload =
        load_bytes-Holds frame start 0 payload (
          subst (λ (n : ℕ). Holds frame n payload) (sym from)
            (held_payload inet eth ip h payload trailer good_eth good_ip good_tcp padded)) in
      rw (frame_stored room, size, fits, not_empty, loaded)
        (push-Pushed u payload (direction_to u dst h.dport) header.ts v)

  -- A TCP header that claims to be longer than its segment: the payload's size wraps round, and the
  -- callback throws an exception that nothing in the capture thread catches.
  pub handle_packet-long_header :
      20 ≤ sub_size ip.total_length (ip.ihl * 4)
      → ip.ihl * 4 ≤ ip.total_length
      → ip.total_length < ip.ihl * 4 + h.offset * 4
      → handle_packet inet u header (frame4 eth ip (print_tcp h ++ payload) trailer)
        ≡ throws (invalid_argument "Payload size greater 1500 bytes is not supported")
  unfolding store
  handle_packet-long_header room fits over =
      rw (frame_stored room) (ground (arith, good_ip.total_length))

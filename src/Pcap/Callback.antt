-- ===== src/Pcap/Callback.antt =====
-- `PcapLoopCallback::handlePacket`, which libpcap calls for every packet that passes the filter.
use timing_proxy.Base.{
  ℕ, ◌&&◌, [], some, Outcome, ok, throws, terminate, fault, out_of_fuel, invalid_argument,
  out_of_range, runtime_error, ◌>>=◌, ◌>>◌, throw_if, ltb, ◌==◌, if◌then◌else◌,
}
use timing_proxy.Packet.Memory.{Memory, load_bytes}
use timing_proxy.Packet.Types.{tcp, Artefacts, new_artefacts, Decoded, Inet}
use timing_proxy.Packet.Ethernet.{decode_packet}
use timing_proxy.Timing.Timeval.{Timeval}
use timing_proxy.Pcap.Packets.{PacketDirection, destination_remote, source_remote, same_bytes}
use timing_proxy.Pcap.UserData.{UserData, claim_slot, fill_slot}

abbrev pub linktype_ethernet : ℕ
linktype_ethernet = 1

-- `struct pcap_pkthdr`: when the packet was seen, how much of it was captured, how long it was.
pub record PacketHeader : Type 0 where
  pub ts : Timeval
  pub caplen : ℕ
  pub len : ℕ

-- The part of the body that runs once the packet is decoded.
unfoldable pub direction_of : UserData → Artefacts → PacketDirection
direction_of u a =
    if same_bytes u.remote_host a.dst_ip && (u.remote_port == a.dst_port)
    then destination_remote
    else source_remote

unfoldable pub store : UserData → PacketHeader → Memory → Decoded → Outcome UserData
unfolding direction_of
store u header packet d = do
  throw_if (ltb 1500 d.payload_size)
      (invalid_argument "Payload size greater 1500 bytes is not supported")
  if d.payload_size == 0
      then ok u
      else claim_slot u >>= λ u'. load_bytes packet d.payload 0 d.payload_size >>= λ bytes.
          fill_slot u' bytes d.payload_size (direction_of u d.artefacts) header.ts

-- The `catch` of the callback takes `std::invalid_argument` alone.
unfoldable pub after_decoding :
    UserData → Outcome Decoded → (Decoded → Outcome UserData) → Outcome UserData
after_decoding u (ok d) next = next d
after_decoding u (throws (invalid_argument what)) next = ok u
after_decoding u (throws (out_of_range what)) next = throws (out_of_range what)
after_decoding u (throws (runtime_error what)) next = throws (runtime_error what)
after_decoding u terminate next = terminate
after_decoding u fault next = fault
after_decoding u out_of_fuel next = out_of_fuel

module _ (inet : Inet) where
  unfoldable pub decode_link : UserData → PacketHeader → Memory → Outcome Decoded
  decode_link u header packet =
      if u.linktype == linktype_ethernet
      then decode_packet inet tcp packet (some 0) header.len (new_artefacts [] [])
      else throws (invalid_argument "Link type not implemented")

  unfoldable pub handle_packet : UserData → PacketHeader → Memory → Outcome UserData
  unfolding after_decoding decode_link
  handle_packet u header packet =
      if u.stop_loop
      then ok u
      else after_decoding u (decode_link u header packet) (store u header packet)

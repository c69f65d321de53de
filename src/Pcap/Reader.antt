-- ===== src/Pcap/Reader.antt =====
-- `PcapWrapper::timingForPacket`, and the methods that start the capture and set its filter's host.
use timing_proxy.Base.{
  ℕ, ◌+◌, Bool, true, false, not, ◌&&◌, List, [], ◌∷◌, Option, none, some, get_elem?, Outcome, ok,
  out_of_fuel, ◌>>=◌, or_fault, ◌==◌, if◌then◌else◌,
}
use timing_proxy.Packet.Memory.{Memory}
use timing_proxy.Packet.Types.{Inet}
use timing_proxy.Timing.Timeval.{Timeval}
use timing_proxy.Pcap.Packets.{PacketInfo, PacketDirection, same_direction, memcmp_zero}
use timing_proxy.Pcap.UserData.{UserData, buffer, bool_eq, shared_buffer_size}
use timing_proxy.Pcap.Callback.{PacketHeader, handle_packet}

-- The test of the loop's first `if`: the reader has caught up.
abbrev pub caught_up : UserData → Bool
caught_up u =
    bool_eq u.active_buffer_producer u.active_buffer_consumer
    && (u.shared_buffer_index_producer == u.shared_buffer_index_consumer)

-- The test of the second `if`: the reader's buffer is read, and the callback writes the other one.
abbrev pub buffer_done : UserData → Bool
buffer_done u =
    not (bool_eq u.active_buffer_producer u.active_buffer_consumer)
    && (u.shared_buffer_index_consumer == shared_buffer_size)

abbrev pub switch_buffer : UserData → UserData
switch_buffer u = record u {
  active_buffer_consumer = not u.active_buffer_consumer;
  shared_buffer_index_consumer = 0;
}

abbrev pub is_match : List ℕ → ℕ → PacketDirection → PacketInfo → Bool
is_match buf buflen direction candidate =
    same_direction direction candidate.direction
    && ((buflen == candidate.payload_size) && memcmp_zero buf candidate.payload buflen)

abbrev pub next_slot : UserData → UserData
next_slot u = record u { shared_buffer_index_consumer = u.shared_buffer_index_consumer + 1 }

-- One round of the `while`: the time stamp if the packet was found, and the state.
unfoldable pub poll : List ℕ → ℕ → PacketDirection → UserData → Outcome (Option Timeval × UserData)
poll buf buflen direction u =
    if caught_up u
    then ok (none, u)
    else if buffer_done u
    then ok (none, switch_buffer u)
    else or_fault (get_elem? (buffer u u.active_buffer_consumer) u.shared_buffer_index_consumer)
      >>= λ candidate. ok (
        (if is_match buf buflen direction candidate then some candidate.timing else none),
        next_slot u,
      )

-- A packet that libpcap hands to the callback.
pub record Arrival : Type 0 where
  pub header : PacketHeader
  pub packet : Memory

module _ (inet : Inet) where
  unfoldable pub deliver : UserData → List Arrival → Outcome UserData
  deliver u [] = ok u
  deliver u (x ∷ xs) = handle_packet inet u x.header x.packet >>= λ u'. deliver u' xs

  -- The loop. The schedule gives, for each round, the packets that the capture thread stores before
  -- it; when it is used up the loop is still turning.
  unfoldable pub timing_for_packet :
      List ℕ → ℕ → PacketDirection → List (List Arrival) → UserData → Outcome (Timeval × UserData)
  timing_for_packet buf buflen direction [] u = out_of_fuel
  timing_for_packet buf buflen direction (xs ∷ rounds) u = deliver u xs >>= λ u'.
      poll buf buflen direction u' >>= λ r. elim r.0 [
        | some t ↦ ok (t, r.1)
        | none ↦ timing_for_packet buf buflen direction rounds r.1
      ]

-- `startLoop` resets the indices; the thread that it creates runs `pcap_loop`.
unfoldable pub start_loop : UserData → UserData
start_loop u = record u {
  shared_buffer_index_consumer = 0;
  shared_buffer_index_producer = 0;
  active_buffer_consumer = false;
  active_buffer_producer = false;
  stop_loop = false;
}

-- `stopLoop` also breaks the loop of libpcap and joins the thread.
unfoldable pub stop_loop : UserData → UserData
stop_loop u = record u { stop_loop = true }

unfoldable pub get_precision : UserData → ℕ
get_precision u = u.tstamp_precision

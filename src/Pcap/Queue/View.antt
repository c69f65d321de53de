-- ===== src/Pcap/Queue/View.antt =====
-- The packets that wait in the buffers, and the invariant of the indices.
use timing_proxy.Base.{ℕ, ◌≤◌, ◌≡◌, true, false, List, ◌++◌, length, take, if◌then◌else◌}
use mathlib.Core.List.{map}
use timing_proxy.Timing.Timeval.{Timeval}
use timing_proxy.Pcap.Packets.{PacketInfo, PacketDirection}
use timing_proxy.Pcap.UserData.{UserData, buffer, bool_eq}
use timing_proxy.Pcap.Queue.Slices.{slice}

-- A stored packet, without what its slot held before.
pub record Packet : Type 0 where
  pub bytes : List ℕ
  pub size : ℕ
  pub timing : Timeval
  pub direction : PacketDirection

abbrev pub packet_of : PacketInfo → Packet
packet_of i = record {
  bytes = take i.payload_size i.payload;
  size = i.payload_size;
  timing = i.timing;
  direction = i.direction;
}

abbrev pub raw : UserData → List PacketInfo
raw u =
    if bool_eq u.active_buffer_producer u.active_buffer_consumer
    then slice (buffer u u.active_buffer_consumer) u.shared_buffer_index_consumer
        u.shared_buffer_index_producer
    else slice (buffer u u.active_buffer_consumer) u.shared_buffer_index_consumer 1000
      ++ slice (buffer u u.active_buffer_producer) 0 u.shared_buffer_index_producer

-- The packets that the reader has not seen, the oldest first.
abbrev pub contents : UserData → List Packet
contents u = map packet_of (raw u)

-- The indices stay in the buffers; on one buffer the reader is not ahead of the callback.
pub record InBounds (u : UserData) : Type 0 where
  pub a_size : length u.shared_buffer_a ≡ 1000
  pub b_size : length u.shared_buffer_b ≡ 1000
  pub producer_in : u.shared_buffer_index_producer ≤ 1000
  pub consumer_in : u.shared_buffer_index_consumer ≤ 1000
  pub behind :
      bool_eq u.active_buffer_producer u.active_buffer_consumer ≡ true
      → u.shared_buffer_index_consumer ≤ u.shared_buffer_index_producer

-- Between two calls of the callback a buffer that it has gone on to is not empty.
pub record IsValid (u : UserData) : Type 0 where
  pub bounds : InBounds u
  pub open bounds use *
  pub ahead :
      bool_eq u.active_buffer_producer u.active_buffer_consumer ≡ false
      → 1 ≤ u.shared_buffer_index_producer

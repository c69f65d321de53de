-- ===== src/Pcap/UserData.antt =====
-- `PcapLoopCallback::UserData`: two buffers that the callback fills and the reader drains.
use timing_proxy.Base.{
  ℕ, ◌+◌, Bool, true, false, not, List, get_elem?, set, Outcome, ok, terminate, ◌>>=◌, or_fault,
  ◌==◌, if◌then◌else◌,
}
use timing_proxy.Timing.Timeval.{Timeval}
use timing_proxy.Pcap.Packets.{PacketInfo, PacketDirection, memcpy}

abbrev pub shared_buffer_size : ℕ
shared_buffer_size = 1000

-- `handle` stands for the `pcap_t*`, which only libpcap looks into.
pub record UserData : Type 0 where
  pub shared_buffer_a : List PacketInfo
  pub shared_buffer_b : List PacketInfo
  pub active_buffer_consumer : Bool
  pub active_buffer_producer : Bool
  pub shared_buffer_index_producer : ℕ
  pub shared_buffer_index_consumer : ℕ
  pub linktype : ℕ
  pub handle : ℕ
  pub tstamp_precision : ℕ
  pub remote_host : List ℕ
  pub remote_port : ℕ
  pub stop_loop : Bool

abbrev pub bool_eq : Bool → Bool → Bool
bool_eq true b = b
bool_eq false b = not b

-- `active ? shared_buffer_b : shared_buffer_a`
abbrev pub buffer : UserData → Bool → List PacketInfo
buffer u active = if active then u.shared_buffer_b else u.shared_buffer_a

-- The two writes of the change of buffers, in the order in which the reader's thread may see them.
abbrev pub reset_index : UserData → UserData
reset_index u = record u { shared_buffer_index_producer = 0 }

abbrev pub flip_buffer : UserData → UserData
flip_buffer u = record u { active_buffer_producer = not u.active_buffer_producer }

abbrev pub turned : UserData → UserData
turned u = flip_buffer (reset_index u)

-- When the active buffer is full the callback goes on to the other one, which the reader must have
-- left.
unfoldable pub claim_slot : UserData → Outcome UserData
claim_slot u =
    if u.shared_buffer_index_producer == shared_buffer_size
    then (if bool_eq u.active_buffer_producer u.active_buffer_consumer
        then ok (turned u)
        else terminate)
    else ok u

-- The state after a slot of the active buffer is written and counted.
abbrev pub put_slot : UserData → PacketInfo → UserData
put_slot u pinfo =
    if u.active_buffer_producer
    then record u {
      shared_buffer_b = set u.shared_buffer_b u.shared_buffer_index_producer pinfo;
      shared_buffer_index_producer = u.shared_buffer_index_producer + 1;
    }
    else record u {
      shared_buffer_a = set u.shared_buffer_a u.shared_buffer_index_producer pinfo;
      shared_buffer_index_producer = u.shared_buffer_index_producer + 1;
    }

-- The slot's fields are written in place, the payload over the bytes that it held.
unfoldable pub fill_slot : UserData → List ℕ → ℕ → PacketDirection → Timeval → Outcome UserData
fill_slot u bytes payload_size direction timing = do
  old ← or_fault (get_elem? (buffer u u.active_buffer_producer) u.shared_buffer_index_producer)
  ok (
      put_slot u (record old {
        payload = memcpy old.payload bytes;
        payload_size = payload_size;
        timing = timing;
        direction = direction;
      }))

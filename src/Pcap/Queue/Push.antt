-- ===== src/Pcap/Queue/Push.antt =====
-- The callback's side: storing a packet appends it to the queue.
use timing_proxy.Base.{
  ℕ, ◌≤◌, ◌<◌, ◌≡◌, refl, ap, ◌∙◌, ◌⊎◌, inl, inr, true, false, List, [], ◌∷◌, ◌++◌, append-nil,
  append_assoc, length, drop, take-append, get_elem?, get_elem?-lt, length-set, length-map,
  length-append, some, ok, terminate, ◌>>=◌, arith, ◌==◌, Bool-cases,
}
use mathlib.Core.List.{map, map-append}
use timing_proxy.Timing.Timeval.{Timeval}
use timing_proxy.Pcap.Packets.{PacketInfo, PacketDirection, memcpy}
use timing_proxy.Pcap.UserData.{UserData, turned, put_slot, buffer, bool_eq, claim_slot, fill_slot}
use timing_proxy.Pcap.Queue.Slices.{slice, slice-empty, slice-set_next, length-slice}
use timing_proxy.Pcap.Queue.View.{Packet, packet_of, raw, contents, InBounds, IsValid}

-- The one state in which the callback gives up: it has filled its buffer, and the reader is still in
-- the other one.
pub record IsFull (u : UserData) : Type 0 where
  pub at_end : u.shared_buffer_index_producer ≡ 1000
  pub other : bool_eq u.active_buffer_producer u.active_buffer_consumer ≡ false

-- A slot is free in the active buffer.
pub record Claimed (u u' : UserData) : Type 0 where
  pub bounds : InBounds u'
  pub room : u'.shared_buffer_index_producer < 1000
  pub same : raw u' ≡ raw u

turned-raw :
    (u : UserData)
    → u.shared_buffer_index_producer ≡ 1000
    → bool_eq u.active_buffer_producer u.active_buffer_consumer ≡ true
    → raw (turned u) ≡ raw u
turned-raw u e s = ground (
  arith,
  slice-empty u.shared_buffer_a 0,
  slice-empty u.shared_buffer_b 0,
  append-nil (slice u.shared_buffer_a u.shared_buffer_index_consumer 1000),
  append-nil (slice u.shared_buffer_b u.shared_buffer_index_consumer 1000),
)

turned-Claimed :
    (u : UserData)
    → IsValid u
    → u.shared_buffer_index_producer ≡ 1000
    → bool_eq u.active_buffer_producer u.active_buffer_consumer ≡ true
    → Claimed u (turned u)
turned-Claimed u v e s = record {
  bounds = ground arith;
  room = omega arith;
  same = turned-raw u e s;
}

pub claim_slot-Claimed :
    (u : UserData)
    → IsValid u
    → (IsFull u × (claim_slot u ≡ terminate))
      ⊎ ((u' : UserData) × (claim_slot u ≡ ok u') × Claimed u u')
unfolding claim_slot
claim_slot-Claimed u v = elim (Bool-cases (u.shared_buffer_index_producer == 1000)) [
  | inl e ↦ elim (Bool-cases (bool_eq u.active_buffer_producer u.active_buffer_consumer)) [
    | inl s ↦ inr (turned u, ground arith, turned-Claimed u v (ground arith) s)
    | inr d ↦ inl (ground arith, ground arith)
  ]
  | inr ne ↦ inr (u, ground arith, record { bounds = v.bounds; room = ground arith; same = refl })
]

module _ (u : UserData) (b : InBounds u) (room : u.shared_buffer_index_producer < 1000)
    (pinfo : PacketInfo) where
  put_slot-raw : raw (put_slot u pinfo) ≡ raw u ++ pinfo ∷ []
  put_slot-raw = ground (
    arith,
    slice-set_next u.shared_buffer_a u.shared_buffer_index_consumer u.shared_buffer_index_producer
        pinfo,
    slice-set_next u.shared_buffer_b u.shared_buffer_index_consumer u.shared_buffer_index_producer
        pinfo,
    slice-set_next u.shared_buffer_a 0 u.shared_buffer_index_producer pinfo,
    slice-set_next u.shared_buffer_b 0 u.shared_buffer_index_producer pinfo,
    append_assoc (slice u.shared_buffer_a u.shared_buffer_index_consumer 1000)
        (slice u.shared_buffer_b 0 u.shared_buffer_index_producer) (pinfo ∷ []),
    append_assoc (slice u.shared_buffer_b u.shared_buffer_index_consumer 1000)
        (slice u.shared_buffer_a 0 u.shared_buffer_index_producer) (pinfo ∷ []),
  )

  pub put_slot-IsValid : IsValid (put_slot u pinfo)
  put_slot-IsValid = ground (
    arith,
    length-set u.shared_buffer_a u.shared_buffer_index_producer pinfo,
    length-set u.shared_buffer_b u.shared_buffer_index_producer pinfo,
  )

abbrev pub stored : List ℕ → PacketDirection → Timeval → Packet
stored bytes direction timing = record {
  bytes = bytes;
  size = length bytes;
  timing = timing;
  direction = direction;
}

packet_of-memcpy :
    (old : PacketInfo) (bytes : List ℕ) (direction : PacketDirection) (timing : Timeval)
    → packet_of (record old {
      payload = memcpy old.payload bytes;
      payload_size = length bytes;
      timing = timing;
      direction = direction;
    })
      ≡ stored bytes direction timing
packet_of-memcpy old bytes direction timing =
    ap
      (λ (bs : List ℕ). record {
        bytes = bs;
        size = length bytes;
        timing = timing;
        direction = direction;
      })
      (take-append bytes (drop (length bytes) old.payload))

-- What storing a packet leaves.
pub record Pushed (u : UserData) (p : Packet) (u' : UserData) : Type 0 where
  pub valid : IsValid u'
  pub appended : contents u' ≡ contents u ++ p ∷ []

active_slot :
    (u : UserData)
    → InBounds u
    → u.shared_buffer_index_producer < 1000
    → (old : PacketInfo) × (get_elem?
          (buffer u u.active_buffer_producer)
          u.shared_buffer_index_producer
        ≡ some old)
active_slot u b room =
    get_elem?-lt (buffer u u.active_buffer_producer) u.shared_buffer_index_producer (ground arith)

pub fill_slot-Pushed :
    (u : UserData) (bytes : List ℕ) (direction : PacketDirection) (timing : Timeval)
    → InBounds u
    → u.shared_buffer_index_producer < 1000
    → (u' : UserData) × (fill_slot u bytes (length bytes) direction timing ≡ ok u')
      × Pushed u (stored bytes direction timing) u'
unfolding fill_slot
fill_slot-Pushed u bytes direction timing b room =
    let (old, e) = active_slot u b room in
    let pinfo : PacketInfo = record old {
      payload = memcpy old.payload bytes;
      payload_size = length bytes;
      timing = timing;
      direction = direction;
    } in
    (
      put_slot u pinfo,
      rw e,
      record {
        valid = put_slot-IsValid u b room pinfo;
        appended =
            ap (map packet_of) (put_slot-raw u b room pinfo)
            ∙ map-append packet_of (raw u) (pinfo ∷ [])
            ∙ ap (λ (p : Packet). contents u ++ p ∷ [])
                (packet_of-memcpy old bytes direction timing);
      },
    )

-- Storing a packet appends it to the queue, or ends the process, which it does in the full state alone.
pub push-Pushed :
    (u : UserData) (bytes : List ℕ) (direction : PacketDirection) (timing : Timeval)
    → IsValid u
    → let run = claim_slot u >>= λ u'. fill_slot u' bytes (length bytes) direction timing in
      (IsFull u × (run ≡ terminate))
      ⊎ ((u' : UserData) × (run ≡ ok u') × Pushed u (stored bytes direction timing) u')
push-Pushed u bytes direction timing v = elim (claim_slot-Claimed u v) [
  | inl (full, e) ↦ inl (full, rw e)
  | inr (u1, e, c) ↦
      let (u2, f, p) = fill_slot-Pushed u1 bytes direction timing c.bounds c.room in
      inr (
        u2,
        rw e f,
        record {
          valid = p.valid;
          appended =
              p.appended
              ∙ ap (λ (l : List PacketInfo). map packet_of l ++ stored bytes direction timing ∷ [])
                  c.same;
        },
      )
]

-- The full state has at least a buffer's worth of packets waiting.
pub IsFull-length : (u : UserData) → IsValid u → IsFull u → 1000 ≤ length (contents u)
IsFull-length u v f = rw (length-map (raw u) packet_of) (
    ground (
      arith,
      length-append (slice u.shared_buffer_a u.shared_buffer_index_consumer 1000)
          (slice u.shared_buffer_b 0 u.shared_buffer_index_producer),
      length-append (slice u.shared_buffer_b u.shared_buffer_index_consumer 1000)
          (slice u.shared_buffer_a 0 u.shared_buffer_index_producer),
      length-slice u.shared_buffer_a 0 u.shared_buffer_index_producer,
      length-slice u.shared_buffer_b 0 u.shared_buffer_index_producer,
    ))

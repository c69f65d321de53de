-- ===== src/Pcap/Queue/Pop.antt =====
-- The reader's side: a round of its loop waits, changes buffers, or takes the oldest packet.
use timing_proxy.Base.{
  ℕ, ◌≡◌, refl, ap, inl, inr, Bool, true, false, ◌&&◌, List, [], ◌∷◌, take, get_elem?, get_elem?-lt,
  Option, some, none, Outcome, ok, arith, ◌==◌, Bool-cases,
}
use mathlib.Core.List.{map}
use timing_proxy.Timing.Timeval.{Timeval}
use timing_proxy.Pcap.Packets.{PacketInfo, PacketDirection, memcmp_zero, same_bytes, same_direction}
use timing_proxy.Pcap.UserData.{UserData, buffer, bool_eq}
use timing_proxy.Pcap.Reader.{caught_up, buffer_done, switch_buffer, next_slot, is_match, poll}
use timing_proxy.Pcap.Queue.Slices.{slice-empty, slice-cons_next}
use timing_proxy.Pcap.Queue.View.{Packet, packet_of, raw, contents, IsValid}

module _ (u : UserData) (v : IsValid u) where
  caught_up-raw : caught_up u ≡ true → raw u ≡ []
  caught_up-raw e = ground (
    arith,
    slice-empty u.shared_buffer_a u.shared_buffer_index_consumer,
    slice-empty u.shared_buffer_b u.shared_buffer_index_consumer,
  )

  switch_buffer-raw : buffer_done u ≡ true → raw (switch_buffer u) ≡ raw u
  switch_buffer-raw e =
      ground (arith, slice-empty u.shared_buffer_a 1000, slice-empty u.shared_buffer_b 1000)

  switch_buffer-IsValid : buffer_done u ≡ true → IsValid (switch_buffer u)
  switch_buffer-IsValid e = ground arith

  -- Otherwise there is a packet to read, and reading it drops it from the queue.
  next_slot-raw :
      caught_up u ≡ false
      → buffer_done u ≡ false
      → (x : PacketInfo) × (get_elem?
            (buffer u u.active_buffer_consumer)
            u.shared_buffer_index_consumer
          ≡ some x)
        × (raw u ≡ x ∷ raw (next_slot u))
  next_slot-raw e d =
      let (x, at) =
        get_elem?-lt (buffer u u.active_buffer_consumer) u.shared_buffer_index_consumer
          (ground arith) in
      (
        x,
        at,
        ground (
          arith,
          slice-cons_next u.shared_buffer_a u.shared_buffer_index_consumer
              u.shared_buffer_index_producer x,
          slice-cons_next u.shared_buffer_b u.shared_buffer_index_consumer
              u.shared_buffer_index_producer x,
          slice-cons_next u.shared_buffer_a u.shared_buffer_index_consumer 1000 x,
          slice-cons_next u.shared_buffer_b u.shared_buffer_index_consumer 1000 x,
        ),
      )

  next_slot-IsValid : caught_up u ≡ false → buffer_done u ≡ false → IsValid (next_slot u)
  next_slot-IsValid e d = ground arith

-- Whether a waiting packet is the one that is looked for: same direction, same length, same bytes.
abbrev pub fits : List ℕ → ℕ → PacketDirection → Packet → Bool
fits buf buflen direction p =
    same_direction direction p.direction
    && ((buflen == p.size) && same_bytes (take buflen buf) p.bytes)

is_match-fits :
    (buf : List ℕ) (buflen : ℕ) (direction : PacketDirection) (x : PacketInfo)
    → is_match buf buflen direction x ≡ fits buf buflen direction (packet_of x)
unfolding memcmp_zero
is_match-fits buf buflen direction x = elim (Bool-cases (buflen == x.payload_size)) [
  | inl e ↦ let same : buflen ≡ x.payload_size = ground arith in rw same
  | inr e ↦ rw e
]

abbrev pub on_one_buffer : UserData → Bool
on_one_buffer u = bool_eq u.active_buffer_producer u.active_buffer_consumer

-- The ways in which a round of the reader's loop ends.
pub data Round (buf : List ℕ) (buflen : ℕ) (direction : PacketDirection) (u : UserData)
    : Outcome (Option Timeval × UserData) → Type 0 where
  waits : contents u ≡ [] → Round buf buflen direction u (ok (none, u))
  switches :
      {u' : UserData}
      → IsValid u'
      → contents u' ≡ contents u
      → on_one_buffer u ≡ false
      → on_one_buffer u' ≡ true
      → Round buf buflen direction u (ok (none, u'))
  passes :
      {u' : UserData} (p : Packet)
      → IsValid u'
      → contents u ≡ p ∷ contents u'
      → on_one_buffer u' ≡ on_one_buffer u
      → fits buf buflen direction p ≡ false
      → Round buf buflen direction u (ok (none, u'))
  finds :
      {u' : UserData} (p : Packet)
      → IsValid u'
      → contents u ≡ p ∷ contents u'
      → fits buf buflen direction p ≡ true
      → Round buf buflen direction u (ok (some p.timing, u'))

pub poll-Round :
    (buf : List ℕ) (buflen : ℕ) (direction : PacketDirection) (u : UserData)
    → IsValid u
    → Round buf buflen direction u (poll buf buflen direction u)
unfolding poll
poll-Round buf buflen direction u v = elim (Bool-cases (caught_up u)) [
  | inl e ↦ rw e (waits (ap (map packet_of) (caught_up-raw u v e)))
  | inr e ↦ elim (Bool-cases (buffer_done u)) [
    | inl d ↦
        rw (e, d)
          (switches (switch_buffer-IsValid u v d) (ap (map packet_of) (switch_buffer-raw u v d))
            (ground arith) (ground arith))
    | inr d ↦
        let (x, at, split) = next_slot-raw u v e d in
        rw (e, d, at, is_match-fits buf buflen direction x)
          (elim (Bool-cases (fits buf buflen direction (packet_of x))) [
            | inl f ↦
                rw f (finds (packet_of x) (next_slot-IsValid u v e d) (ap (map packet_of) split) f)
            | inr f ↦
                rw f (
                  passes (packet_of x) (next_slot-IsValid u v e d) (ap (map packet_of) split) refl
                    f)
          ])
  ]
]

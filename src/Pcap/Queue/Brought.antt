-- ===== src/Pcap/Queue/Brought.antt =====
-- The packets that the capture thread adds to the queue for what libpcap hands to the callback.
use timing_proxy.Base.{
  ℕ, ◌≤◌, ◌<◌, ◌≡◌, sym, ap, ◌∙◌, subst, Bool, true, false, ◌&&◌, List, [], ◌∷◌, ◌++◌, append_assoc,
  some, ok, throws, invalid_argument, ◌==◌, if◌then◌else◌,
}
use timing_proxy.Packet.Memory.{load_bytes}
use timing_proxy.Packet.Types.{Artefacts, Decoded, Inet, tcp, new_artefacts}
use timing_proxy.Packet.Ethernet.{decode_packet}
use timing_proxy.Pcap.Packets.{PacketDirection, same_bytes, destination_remote, source_remote}
use timing_proxy.Pcap.UserData.{UserData}
use timing_proxy.Pcap.Callback.{linktype_ethernet, direction_of, decode_link}
use timing_proxy.Pcap.Reader.{Arrival}
use timing_proxy.Pcap.Queue.View.{Packet}
use timing_proxy.Pcap.Queue.Push.{stored}
use timing_proxy.Pcap.Queue.Settings.{settings}

module _ (inet : Inet) where
  -- What one packet from libpcap adds under the settings of `u`: nothing if the loop is to stop, if the
  -- packet cannot be decoded or if it has no payload; and else its payload, as it stands in the packet,
  -- with the time that libpcap gives for it and its direction.
  pub data Brings (u : UserData) (x : Arrival) : List Packet → Type 0 where
    stopped : u.stop_loop ≡ true → Brings u x []
    undecoded :
        {what : _}
        → decode_link inet u x.header x.packet ≡ throws (invalid_argument what)
        → Brings u x []
    empty :
        (d : Decoded)
        → decode_link inet u x.header x.packet ≡ ok d
        → d.payload_size ≡ 0
        → Brings u x []
    payload :
        (d : Decoded) (bytes : List ℕ)
        → decode_link inet u x.header x.packet ≡ ok d
        → u.stop_loop ≡ false
        → 0 < d.payload_size
        → d.payload_size ≤ 1500
        → load_bytes x.packet d.payload 0 d.payload_size ≡ ok bytes
        → Brings u x (stored bytes (direction_of u d.artefacts) x.header.ts ∷ [])

  -- The same for one packet after the other.
  pub data Brought (u : UserData) : List Arrival → List Packet → Type 0 where
    no_more : Brought u [] []
    one_more :
        {x : Arrival} {xs : List Arrival} {ps qs : List Packet}
        → Brings u x ps
        → Brought u xs qs
        → Brought u (x ∷ xs) (ps ++ qs)

  pub Brought-append :
      {u : UserData} {xs ys : List Arrival} {ps qs : List Packet}
      → Brought u xs ps
      → Brought u ys qs
      → Brought u (xs ++ ys) (ps ++ qs)
  Brought-append no_more more = more
  Brought-append {u = u} {xs = x ∷ xs} {ys = ys} {qs = qs} (one_more {ps = ps} {qs = rs} first rest)
        more =
      subst (Brought u (x ∷ xs ++ ys)) (sym (append_assoc ps rs qs))
        (one_more first (Brought-append rest more))

  decode_link-settings :
      (u v : UserData) (x : Arrival)
      → settings v ≡ settings u
      → decode_link inet u x.header x.packet ≡ decode_link inet v x.header x.packet
  unfolding decode_link
  decode_link-settings u v x same =
      ap
        (λ (linktype : ℕ).
          if linktype == linktype_ethernet
          then decode_packet inet tcp x.packet (some 0) x.header.len (new_artefacts [] [])
          else throws (invalid_argument "Link type not implemented"))
        (sym (ap (λ (s : ℕ × List ℕ × ℕ × Bool). s.0) same))

  direction_of-settings :
      (u v : UserData) (a : Artefacts)
      → settings v ≡ settings u
      → direction_of v a ≡ direction_of u a
  unfolding direction_of
  direction_of-settings u v a same =
      ap
        (λ (s : ℕ × List ℕ × ℕ × Bool).
          if same_bytes s.1 a.dst_ip && (s.2 == a.dst_port)
          then destination_remote
          else source_remote)
        same

  stop_loop-settings :
      (u v : UserData) {b : Bool} → settings v ≡ settings u → v.stop_loop ≡ b → u.stop_loop ≡ b
  stop_loop-settings u v same is = sym (ap (λ (s : ℕ × List ℕ × ℕ × Bool). s.3) same) ∙ is

  Brings-settings :
      {u v : UserData} {x : Arrival} {ps : List Packet}
      → settings v ≡ settings u
      → Brings v x ps
      → Brings u x ps
  Brings-settings {u} {v} {x} same (stopped stop) = stopped (stop_loop-settings u v same stop)
  Brings-settings {u} {v} {x} same (undecoded bad) =
      undecoded (decode_link-settings u v x same ∙ bad)
  Brings-settings {u} {v} {x} same (empty d decoded nil) =
      empty d (decode_link-settings u v x same ∙ decoded) nil
  Brings-settings {u} {v} {x} same (payload d bytes decoded running some_bytes fits loaded) =
      subst (λ (direction : PacketDirection). Brings u x (stored bytes direction x.header.ts ∷ []))
        (sym (direction_of-settings u v d.artefacts same))
        (payload d bytes (decode_link-settings u v x same ∙ decoded)
          (stop_loop-settings u v same running) some_bytes fits loaded)

  pub Brought-settings :
      {u v : UserData} {xs : List Arrival} {ps : List Packet}
      → settings v ≡ settings u
      → Brought v xs ps
      → Brought u xs ps
  Brought-settings same no_more = no_more
  Brought-settings same (one_more first rest) =
      one_more (Brings-settings same first) (Brought-settings same rest)

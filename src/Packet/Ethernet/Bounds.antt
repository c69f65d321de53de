-- ===== src/Packet/Ethernet/Bounds.antt =====
-- A whole frame: decoding ends and reads nothing outside it.
use timing_proxy.Base.{
  ℕ, ◌+◌, ◌-◌, ◌^◌, ◌≤◌, ◌<◌, ◌≡◌, refl, sym, ◌∙◌, subst, some, length, arith, ok, Safe, returns,
  stops, Safe-bind, Safe-self, Safe-if, Safe-throw_below, ◌==◌, ==_iff,
}
use timing_proxy.Packet.Memory.{Memory, load16, ntohs}
use timing_proxy.Packet.Memory.Bounds.{load16-Safe}
use timing_proxy.Packet.Types.{Layer, ethernet, same_layer, Artefacts, Reaches, inside, Inet}
use timing_proxy.Packet.Ipv4
use timing_proxy.Packet.Ipv6
use timing_proxy.Packet.Ipv4.Bounds as Ipv4Bounds
use timing_proxy.Packet.Ipv6.Bounds as Ipv6Bounds
use timing_proxy.Packet.Ipv4.Bounds.{IsHonest}
use timing_proxy.Packet.Ethernet.{
  EthernetParser, parse_header, decode_until, decode_packet, new_ethernet_parser, ether_type_ipv4,
  ether_type_ipv6,
}

record Parsed (m : Memory) (size : ℕ) (t : EthernetParser) : Type 0 where
  word : ℕ
  read_type : load16 m (some 0) 12 ≡ ok word
  type : t.type ≡ ntohs word
  start : t.base.payload ≡ some 14
  rest : t.base.payload_size ≡ size - 14
  big : 14 ≤ size

-- The frame carries IPv4 only with lengths that fit it.
abbrev pub IsHonestFrame : Memory → ℕ → Type 0
IsHonestFrame m size =
    (word : ℕ)
    → load16 m (some 0) 12 ≡ ok word
    → ntohs word ≡ ether_type_ipv4
    → IsHonest m 14 (size - 14)

module _ (inet : Inet) (m : Memory) (size : ℕ) (owned : size ≤ length m)
    (small : length m < 2 ^ 64) where
  parse_header-Safe :
      (this : EthernetParser) → Safe (Parsed m size) (parse_header m this (some 0) size)
  unfolding parse_header
  parse_header-Safe this = Safe-bind (Safe-throw_below size 14 _) λ _ big.
      Safe-bind (Safe-self (load16-Safe m 0 12 (omega arith))) λ w (hw, _). returns (record {
        word = w;
        read_type = hw;
        type = refl;
        start = refl;
        rest = omega arith;
        big = big;
      })

  -- For a frame of the size given, below 2 ^ 64: if the lengths of an IPv4 header in it fit the frame,
  -- then decoding it ends, whatever the layer asked for: with a result, an exception or std::terminate, and without a read outside the
  -- frame. There is no payload, or it lies inside the frame, or the layer is TCP and the payload begins
  -- up to 60 bytes after the end of its segment: then its size has wrapped round by what it is too far.
  pub decode_packet-Safe :
      (layer : Layer) (a : Artefacts)
      → IsHonestFrame m size
      → Safe (Reaches layer size) (decode_packet inet layer m (some 0) size a)
  unfolding decode_packet decode_until
  decode_packet-Safe layer a honest = Safe-bind (parse_header-Safe new_ethernet_parser) λ t h.
      let fits : 14 + (size - 14) ≡ size = omega (arith, h.big) in
      Safe-if (same_layer layer ethernet)
        (λ _.
          returns
            {a = record {
              payload = t.base.payload;
              payload_size = t.base.payload_size;
              artefacts = a;
            }}
            (inside 14 h.start (omega (arith, h.rest, h.big))))
        λ _.
          Safe-if (t.type == ether_type_ipv4)
            (λ e.
              rw (h.start, h.rest)
                (subst
                  (λ (n : ℕ).
                    Safe (Reaches layer n) (Ipv4.decode_until inet layer m (some 14) (size - 14) a))
                  fits
                  (Ipv4Bounds.decode_until-Safe inet m 14 (size - 14) (omega arith)
                    (honest h.word h.read_type (sym h.type ∙ (==_iff _ _).0 e)) (omega arith) layer
                    a)))
            λ _.
              Safe-if (t.type == ether_type_ipv6)
                (λ _.
                  rw (h.start, h.rest)
                    (subst
                      (λ (n : ℕ).
                        Safe (Reaches layer n)
                          (Ipv6.decode_until inet layer m (some 14) (size - 14) a))
                      fits
                      (Ipv6Bounds.decode_until-Safe inet m 14 (size - 14) (omega arith) layer a
                        (omega arith))))
                λ _. stops

-- ===== src/Packet/Ipv4/Bounds.antt =====
-- The IPv4 header: no read outside the packet, where the payload lies if the total length is
-- honest, and what happens where it is not.
use timing_proxy.Base.{
  ℕ, ◌+◌, ◌*◌, ◌/◌, ◌%◌, ◌^◌, ◌≤◌, ◌<◌, ◌≡◌, refl, not, some, length, arith, ok, Safe, returns,
  stops, Safe-bind, Safe-self, Safe-if, Safe-mono, Safe-throw_below, Safe-terminate_if,
  Safe-or_throw, ◌==◌,
}
use timing_proxy.Packet.Memory.{Memory, sub_size, load8, load16, ntohs}
use timing_proxy.Packet.Memory.Bounds.{load8-Safe, load16-Safe, load_bytes-Safe}
use timing_proxy.Packet.Types.{
  Layer, ipv4, same_layer, strncpy, Artefacts, Decoded, Reaches, Reaches-mono, inside, Inet,
}
use timing_proxy.Packet.Tcp.Bounds as TcpBounds
use timing_proxy.Packet.Udp.Bounds as UdpBounds
use timing_proxy.Packet.Ipv4.{
  Ipv4Parser, parse_header, decode_until, new_ipv4_parser, proto_tcp, proto_udp, inet_addrstrlen,
}

-- The header's two lengths fit the packet. The source never checks this.
abbrev pub IsHonest : Memory → ℕ → ℕ → Type 0
IsHonest m q size =
    (vhl len : ℕ)
    → load8 m (some q) 0 ≡ ok vhl
    → load16 m (some q) 2 ≡ ok len
    → (vhl % 16 * 4 ≤ ntohs len) × (ntohs len ≤ size)

-- The `Decoded` that stops at this layer.
abbrev after : Ipv4Parser → Artefacts → Decoded
after t a = record {
  payload = t.base.payload;
  payload_size = t.base.payload_size;
  artefacts = record a {
    ip_type = ipv4;
    src_ip = strncpy inet_addrstrlen t.addr_src;
    dst_ip = strncpy inet_addrstrlen t.addr_dst;
  };
}

-- What `parseHeader` leaves, in terms of the two lengths that it read.
record Parsed (m : Memory) (q : ℕ) (t : Ipv4Parser) : Type 0 where
  vhl : ℕ
  len : ℕ
  read_vhl : load8 m (some q) 0 ≡ ok vhl
  read_len : load16 m (some q) 2 ≡ ok len
  start : t.base.payload ≡ some (q + vhl % 16 * 4)
  rest : t.base.payload_size ≡ sub_size (ntohs len) (vhl % 16 * 4)

module _ (inet : Inet) (m : Memory) (q size : ℕ) (owned : q + size ≤ length m) where
  parse_header-Safe :
      (this : Ipv4Parser) → Safe (Parsed m q) (parse_header inet m this (some q) size)
  unfolding parse_header
  parse_header-Safe this = Safe-bind (Safe-throw_below size 20 _) λ _ big.
      Safe-bind (Safe-self (load8-Safe m q 0 (omega arith))) λ vhl (hv, _).
        Safe-bind (Safe-terminate_if (not (vhl / 16 == 4))) λ _ _.
          Safe-bind (Safe-self (load16-Safe m q 2 (omega arith))) λ len (hl, _).
            Safe-bind (load8-Safe m q 9 (omega arith)) λ _ _.
              Safe-bind (load_bytes-Safe m q 12 4 (omega arith)) λ src _.
                Safe-bind (Safe-or_throw (inet.ntop4 src) _) λ _ _.
                  Safe-bind (load_bytes-Safe m q 16 4 (omega arith)) λ dst _.
                    Safe-bind (Safe-or_throw (inet.ntop4 dst) _) λ _ _. returns (record {
                      vhl = vhl;
                      len = len;
                      read_vhl = hv;
                      read_len = hl;
                      start = refl;
                      rest = refl;
                    })

  module _ (honest : IsHonest m q size) (small : size < 2 ^ 64) where
    -- An honest header leaves a payload inside the packet.
    payload_inside :
        (t : Ipv4Parser)
        → Parsed m q t
        → (p : ℕ) × (t.base.payload ≡ some p) × (p + t.base.payload_size ≤ q + size)
    payload_inside t h = (
      q + h.vhl % 16 * 4,
      h.start,
      omega (arith, h.rest, honest h.vhl h.len h.read_vhl h.read_len),
    )

    -- Decoding an honest IPv4 packet reads nothing outside it.
    pub decode_until-Safe :
        (layer : Layer) (a : Artefacts)
        → Safe (Reaches layer (q + size)) (decode_until inet layer m (some q) size a)
    unfolding decode_until
    decode_until-Safe layer a = Safe-bind (parse_header-Safe new_ipv4_parser) λ t h.
        let (p, at, le) = payload_inside t h in
        Safe-if (same_layer layer ipv4) (λ _. returns {a = after t a} (inside p at le))
          λ _.
            Safe-if (t.proto == proto_tcp)
              (λ _. rw at (
                Safe-mono (TcpBounds.decode_until-Safe m p _ (omega arith) layer _ (omega arith))
                  (λ d. Reaches-mono d le)))
              λ _.
                Safe-if (t.proto == proto_udp)
                  (λ _. rw at (
                    Safe-mono
                      (UdpBounds.decode_until-Safe m p _ (omega arith) (omega arith) layer _)
                      (λ d. Reaches-mono d le)))
                  λ _. stops

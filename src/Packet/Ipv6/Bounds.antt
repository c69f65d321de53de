-- ===== src/Packet/Ipv6/Bounds.antt =====
-- The IPv6 header and its extension headers: the loop ends, and no read leaves the packet.
use timing_proxy.Base.{
  ℕ, zero, suc, ◌+◌, ◌-◌, ◌*◌, ◌^◌, ◌≤◌, ◌<◌, ◌≡◌, refl, ◌∙◌, not, ltb, if◌then◌else◌, ◌||◌, ◌%◌,
  ◌/◌, Bool, true, false, List, [], ◌∷◌, some, none, length, arith, Outcome, ok, Safe, returns,
  raises, stops, Safe-bind, Safe-mono, Safe-throw_below, Safe-throw_if, Safe-terminate_if,
  Safe-terminate_below, Safe-or_throw, Safe-if, Bool-cases, inl, inr, ◌==◌,
}
use timing_proxy.Packet.Memory.{Memory, Pointer, ntohs}
use timing_proxy.Packet.Memory.Bounds.{
  Anything, load8-Safe, load16-Safe, load32-Safe, load_bytes-Safe,
}
use timing_proxy.Packet.Types.{
  Layer, Artefacts, PacketParser, Decoded, ipv6, strncpy, same_layer, Reaches, Reaches-mono,
  nothing, inside, Inet,
}
use timing_proxy.Packet.Tcp
use timing_proxy.Packet.Udp
use timing_proxy.Packet.Tcp.Bounds as TcpBounds
use timing_proxy.Packet.Udp.Bounds as UdpBounds
use timing_proxy.Packet.Ipv6.{
  next_tcp, next_udp, inet6_addrstrlen, Chain, NextHeaderKind, map_at, header_type_map,
  is_extension, is_extension_header, skip_header, extension_headers, Ipv6Parser, parse_header,
  decode_until, new_ipv6_parser, ipv6_nonxt,
}

-- The rest of the packet, which ends at `stop`.
pub record Within (m : Memory) (stop : ℕ) (c : Chain) : Type 0 where
  pub at : ℕ
  pub here : c.current_header ≡ some at
  pub ends : at + c.payload_size ≡ stop
  pub owned : stop ≤ length m

map_at-Safe : (l : List (ℕ × NextHeaderKind)) (k : ℕ) → Safe Anything (map_at l k)
map_at-Safe [] k = raises
map_at-Safe ((j, v) ∷ l) k = elim (Bool-cases (j == k)) [
  | inl e ↦ rw e (returns tt)
  | inr e ↦ rw e (map_at-Safe l k)
]

is_extension_header-Safe : (next_hdr : ℕ) → Safe Anything (is_extension_header next_hdr)
unfolding is_extension_header
is_extension_header-Safe next_hdr =
    Safe-bind {f = λ kind. ok (is_extension kind)} (map_at-Safe header_type_map next_hdr)
      λ _ _. returns tt

skip_header-Safe :
    (m : Memory) (stop : ℕ) (c : Chain)
    → Within m stop c
    → Safe (λ c'. Within m stop c' × (c'.payload_size < c.payload_size)) (skip_header m c)
unfolding skip_header
skip_header-Safe m stop c w = rw w.here (
    Safe-bind (Safe-terminate_below c.payload_size 64) λ _ big.
      Safe-bind (load8-Safe m w.at 0 (omega (arith, w.ends, w.owned))) λ _ _.
        Safe-bind (load8-Safe m w.at 1 (omega (arith, w.ends, w.owned))) λ len _.
          Safe-bind (Safe-terminate_below c.payload_size (len * 8 + 8)) λ _ fits. returns (
            record {
              at = w.at + (len * 8 + 8);
              here = refl;
              ends = omega (arith, w.ends);
              owned = w.owned;
            },
            omega arith,
          ))

-- With the payload's size for fuel the loop ends, inside the packet.
pub extension_headers-Safe :
    (fuel : ℕ) (m : Memory) (stop : ℕ) (c : Chain)
    → c.payload_size < fuel
    → Within m stop c
    → Safe (Within m stop) (extension_headers fuel m c)
unfolding extension_headers
extension_headers-Safe zero m stop c h w = elim h [ ]
extension_headers-Safe (suc fuel) m stop c h w =
    Safe-bind (is_extension_header-Safe c.next_hdr) λ more _. elim (Bool-cases more) [
      | inl e ↦ rw e (
          Safe-bind (skip_header-Safe m stop c w)
            λ c' (w', less). extension_headers-Safe fuel m stop c' (omega arith) w')
      | inr e ↦ rw e (returns w)
    ]

-- What `parseHeader` leaves: no payload, or one inside the packet.
pub data Inside (m : Memory) (q size : ℕ) (b : PacketParser) : Type 0 where
  empty : b.payload ≡ none → b.payload_size ≡ 0 → Inside m q size b
  there : (p : ℕ) → b.payload ≡ some p → p + b.payload_size ≤ q + size → Inside m q size b

-- The last step of `parseHeader`: what it makes of the chain's end.
chain-Inside :
    {m : Memory} {q size : ℕ} (c : Chain) (b : PacketParser) (done : Bool)
    → b.payload ≡ (if done then none else c.current_header)
    → b.payload_size ≡ (if done then 0 else c.payload_size)
    → (stop : ℕ) → stop ≤ q + size
    → Within m stop c
    → Inside m q size b
chain-Inside c b true e s stop h w = empty e s
chain-Inside c b false e s stop h w = there w.at (e ∙ w.here) (omega (arith, s, w.ends))

-- The `Decoded` that stops at this layer.
abbrev after : Ipv6Parser → Artefacts → Decoded
after t a = record {
  payload = t.base.payload;
  payload_size = t.base.payload_size;
  artefacts = record a {
    ip_type = ipv6;
    src_ip = strncpy inet6_addrstrlen t.addr_src;
    dst_ip = strncpy inet6_addrstrlen t.addr_dst;
  };
}

payload-Reaches :
    {layer : Layer} {m : Memory} {q size : ℕ} {b : PacketParser} (d : Decoded)
    → d.payload ≡ b.payload
    → d.payload_size ≡ b.payload_size
    → Inside m q size b
    → Reaches layer (q + size) d
payload-Reaches d e s (empty n z) = nothing (e ∙ n) (s ∙ z)
payload-Reaches d e s (there p h le) = inside p (e ∙ h) (omega (arith, s))

-- Any decoder that is safe inside the packet, and on the null pointer, is safe on the payload.
transport-Safe :
    {layer : Layer} {m : Memory} {q size : ℕ} {b : PacketParser}
    (decode : Pointer → ℕ → Outcome Decoded)
    → ((p n : ℕ) → p + n ≤ q + size → Safe (Reaches layer (q + size)) (decode (some p) n))
    → Safe (Reaches layer (q + size)) (decode none 0)
    → Inside m q size b
    → Safe (Reaches layer (q + size)) (decode b.payload b.payload_size)
transport-Safe decode at null (empty n z) = rw (n, z) null
transport-Safe decode at null (there p h le) = rw h (at p _ le)

module _ (inet : Inet) (m : Memory) (q size : ℕ) (owned : q + size ≤ length m) where
  parse_header-Safe :
      (this : Ipv6Parser)
      → Safe (λ t. Inside m q size t.base) (parse_header inet m this (some q) size)
  unfolding parse_header
  parse_header-Safe this = Safe-bind (Safe-throw_below size 40 _) λ _ big.
      Safe-bind (load32-Safe m q 0 (omega arith)) λ flow _.
        Safe-bind (Safe-terminate_if (not (flow % 256 / 16 == 6))) λ _ _.
          Safe-bind (load16-Safe m q 4 (omega arith)) λ len _.
            Safe-bind (Safe-throw_if (ltb size 40 || ltb (size - 40) (ntohs len)) _) λ _ fits.
              Safe-bind (load8-Safe m q 7 (omega arith)) λ hop _.
                Safe-bind (load_bytes-Safe m q 8 16 (omega arith)) λ src _.
                  Safe-bind (Safe-or_throw (inet.ntop6 src) _) λ _ _.
                    Safe-bind (load_bytes-Safe m q 24 16 (omega arith)) λ dst _.
                      Safe-bind (Safe-or_throw (inet.ntop6 dst) _) λ _ _.
                        Safe-bind (load8-Safe m q 6 (omega arith)) λ next _.
                          let room : 40 + ntohs len ≤ size = ground arith in
                          Safe-bind
                            (extension_headers-Safe (suc (ntohs len)) m (q + (40 + ntohs len)) _
                              (omega arith)
                              (record {
                                at = q + 40;
                                here = refl;
                                ends = omega arith;
                                owned = omega arith;
                              }))
                            λ c w. returns (
                              chain-Inside c _ (c.next_hdr == ipv6_nonxt) refl refl
                                (q + (40 + ntohs len)) (omega arith) w)

  -- Decoding an IPv6 packet ends and reads nothing outside it.
  pub decode_until-Safe :
      (layer : Layer) (a : Artefacts)
      → length m < 2 ^ 64
      → Safe (Reaches layer (q + size)) (decode_until inet layer m (some q) size a)
  unfolding decode_until
  decode_until-Safe layer a small = Safe-bind (parse_header-Safe new_ipv6_parser) λ t h.
      Safe-if (same_layer layer ipv6)
        (λ _. returns {a = after t a} (payload-Reaches (after t a) refl refl h))
        λ _.
          Safe-if (t.next_hdr == next_tcp)
            (λ _.
              transport-Safe (λ p n. Tcp.decode_until layer m p n (after t a).artefacts)
                (λ p n le.
                  Safe-mono (TcpBounds.decode_until-Safe m p n (omega arith) layer _ (omega arith))
                    (λ d. Reaches-mono d le))
                (TcpBounds.decode_until-null m layer _ _) h)
            λ _.
              Safe-if (t.next_hdr == next_udp)
                (λ _.
                  transport-Safe (λ p n. Udp.decode_until layer m p n (after t a).artefacts)
                    (λ p n le.
                      Safe-mono
                        (UdpBounds.decode_until-Safe m p n (omega arith) (omega arith) layer _)
                        (λ d. Reaches-mono d le))
                    (UdpBounds.decode_until-null m layer _ _) h)
                λ _. stops

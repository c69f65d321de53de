-- ===== src/Packet/Ipv6/Wire.antt =====
-- The IPv6 parser reads back a printed header with its chain of extension headers.
use timing_proxy.Base.{
  ℕ, suc, ◌+◌, ◌-◌, ◌*◌, ◌/◌, ◌%◌, ◌<◌, ◌≤◌, ◌≡◌, refl, sym, ◌∙◌, subst, arith, true, false, ltb,
  ◌==◌, some, List, ◌++◌, length, length-append, take, none, Outcome, ok, throws, terminate, fault,
  out_of_fuel, ◌>>=◌, if◌then◌else◌,
}
use timing_proxy.Packet.Memory.{Memory, load_bytes}
use timing_proxy.Packet.Memory.Holds.{
  Holds, Holds-left, Holds-right, load8-Holds, load16-Holds, load32-bytes, load_bytes-Holds,
  ntohs-swapped,
}
use timing_proxy.Packet.Types.{
  get_payload, get_payload_size, ipv6, tcp, Artefacts, Decoded, Inet, strncpy,
}
use timing_proxy.Packet.Tcp
use timing_proxy.Packet.Udp
use timing_proxy.Packet.Wire.{
  Ipv6Header, IsIpv6Header, print_ipv6, ExtHeader, first_type, print_chain,
}
use timing_proxy.Packet.Ipv6.{
  Chain, skip_header, next_tcp, next_udp, ipv6_nonxt, Ipv6Parser, is_extension_header,
  extension_headers, parse_header, decode_until,
}
use timing_proxy.Packet.Ipv6.Extensions.{IsChain, behind, extension_headers-print}

-- The addresses as the source writes them to its artefacts.
abbrev pub addressed : List ℕ → List ℕ → Artefacts → Artefacts
addressed src dst a = record a { ip_type = ipv6; src_ip = strncpy 46 src; dst_ip = strncpy 46 dst }

pub length-print_ipv6 : (h : Ipv6Header) → IsIpv6Header h → length (print_ipv6 h) ≡ 40
length-print_ipv6 h good = omega (arith, length-append h.src h.dst, good.src, good.dst)

version_nibble :
    (n c d e : ℕ) → n < 256 → (6 * 16 + n / 16 + 256 * c + 65536 * (d + 256 * e)) % 256 / 16 ≡ 6
version_nibble n c d e h = omega arith

is_extension_header-tcp : is_extension_header 6 ≡ ok false
unfolding is_extension_header
is_extension_header-tcp = refl

-- The layer above, by the header that the parser found.
abbrev decode_upper : Memory → Artefacts → Ipv6Parser → Outcome Decoded
decode_upper m a parser =
    let a' = addressed parser.addr_src parser.addr_dst a in
    if parser.next_hdr == next_tcp
    then Tcp.decode_until tcp m parser.base.payload parser.base.payload_size a'
    else if parser.next_hdr == next_udp
    then Udp.decode_until tcp m parser.base.payload parser.base.payload_size a'
    else terminate

bind_assoc :
    {A B C : Type 0} (r : Outcome A) (f : A → Outcome B) (g : B → Outcome C)
    → ((r >>= f) >>= g) ≡ (r >>= λ a. f a >>= g)
bind_assoc (ok a) f g = refl
bind_assoc (throws e) f g = refl
bind_assoc terminate f g = refl
bind_assoc fault f g = refl
bind_assoc out_of_fuel f g = refl

-- A header at q and its chain behind it.
module _ (inet : Inet) (m : Memory) (q packet_size : ℕ) (h : Ipv6Header) (es : List ExtHeader)
    (good : IsIpv6Header h) (held : Holds m q (print_ipv6 h ++ print_chain es 6))
    (first : h.next_header ≡ first_type es 6) (whole : 40 + h.payload_length ≤ packet_size)
    (src dst : List ℕ) (src_ok : inet.ntop6 h.src ≡ some src)
    (dst_ok : inet.ntop6 h.dst ≡ some dst) where
  held_header : Holds m q (print_ipv6 h)
  held_header = Holds-left m q (print_ipv6 h) (print_chain es 6) held

  held_chain : Holds m (q + 40) (print_chain es 6)
  held_chain =
      let there : q + length (print_ipv6 h) ≡ q + 40 = omega (arith, length-print_ipv6 h good) in
      subst (λ (n : ℕ). Holds m n (print_chain es 6)) there
        (Holds-right m q (print_ipv6 h) (print_chain es 6) held)

  held_src : Holds m (q + 8) h.src
  held_src =
      Holds-left m (q + 8) h.src h.dst
        (Holds-right m q (take 8 (print_ipv6 h)) (h.src ++ h.dst) held_header)

  held_dst : Holds m (q + 24) h.dst
  held_dst =
      let there : q + 8 + length h.src ≡ q + 24 = omega (arith, good.src) in
      subst (λ (n : ℕ). Holds m n h.dst) there
        (Holds-right m (q + 8) h.src h.dst
          (Holds-right m q (take 8 (print_ipv6 h)) (h.src ++ h.dst) held_header))

  loaded_src : load_bytes m (some q) 8 16 ≡ ok h.src
  loaded_src =
      subst (λ (n : ℕ). load_bytes m (some q) 8 n ≡ ok h.src) good.src
        (load_bytes-Holds m q 8 h.src held_src)

  loaded_dst : load_bytes m (some q) 24 16 ≡ ok h.dst
  loaded_dst =
      subst (λ (n : ℕ). load_bytes m (some q) 24 n ≡ ok h.dst) good.dst
        (load_bytes-Holds m q 24 h.dst held_dst)

  -- What the loop starts from, and what the parser holds after it.
  abbrev start : Chain
  start = record {
    next_hdr = first_type es 6;
    current_header = some (q + 40);
    payload_size = h.payload_length;
  }

  abbrev parsed : Chain → Ipv6Parser
  parsed c = record {
    base = record {
      packet = some q;
      payload = if c.next_hdr == ipv6_nonxt then none else c.current_header;
      packet_size = packet_size;
      payload_size = if c.next_hdr == ipv6_nonxt then 0 else c.payload_size;
    };
    hop_limit = h.hop_limit;
    next_hdr = c.next_hdr;
    addr_src = src;
    addr_dst = dst;
  }

  -- Everything but the loop over the extension headers.
  decode_until-loop :
      (a : Artefacts)
      → decode_until inet tcp m (some q) packet_size a
        ≡ (extension_headers (suc h.payload_length) m start >>= λ c. decode_upper m a (parsed c))
  unfolding decode_until parse_header get_payload get_payload_size
  decode_until-loop a =
      let big : ltb packet_size 40 ≡ false = ground arith in
      let inside : ltb (packet_size - 40) h.payload_length ≡ false = ground arith in
      rw
        (
          big,
          load32-bytes m q (print_ipv6 h) held_header 0 (6 * 16 + h.traffic_class / 16)
              (h.traffic_class % 16 * 16 + h.flow_label / 65536) (h.flow_label / 256 % 256)
              (h.flow_label % 256) refl refl refl refl,
          version_nibble h.traffic_class (h.traffic_class % 16 * 16 + h.flow_label / 65536)
              (h.flow_label / 256 % 256) (h.flow_label % 256) good.traffic_class,
          load16-Holds m q (print_ipv6 h) held_header 4 h.payload_length refl refl,
          ntohs-swapped h.payload_length good.payload_length,
          inside,
          load8-Holds m q (print_ipv6 h) held_header 7 h.hop_limit refl,
          loaded_src,
          src_ok,
          loaded_dst,
          dst_ok,
          load8-Holds m q (print_ipv6 h) held_header 6 h.next_header refl,
          first,
        )
        (bind_assoc (extension_headers (suc h.payload_length) m start) (λ c. ok (parsed c))
          (decode_upper m a))

  -- A TCP segment of `size` bytes behind the chain.
  pub decode_until-tcp :
      (size : ℕ) (a : Artefacts)
      → h.payload_length ≡ length (print_chain es 6) + size
      → IsChain 6 size es
      → decode_until inet tcp m (some q) packet_size a
        ≡ Tcp.decode_until tcp m
            (some (q + 40 + length (print_chain es 6)))
            size
            (addressed src dst a)
  decode_until-tcp size a total chain =
      let loop =
        subst
          (λ (n : ℕ).
            extension_headers (suc h.payload_length) m (record start { payload_size = n })
            ≡ ok (behind es 6 (q + 40) size))
          (sym total)
          (extension_headers-print m 6 size h.payload_length es (q + 40) is_extension_header-tcp
            chain (omega (arith, total)) held_chain) in
      decode_until-loop a ∙ rw loop refl

  -- Less than 64 bytes from an extension header on.
  pub decode_until-short :
      (a : Artefacts)
      → is_extension_header h.next_header ≡ ok true
      → h.payload_length < 64
      → decode_until inet tcp m (some q) packet_size a ≡ terminate
  unfolding extension_headers skip_header
  decode_until-short a known short =
      let few : ltb h.payload_length 64 ≡ true = ground arith in
      decode_until-loop a ∙ rw (rw first at known, few) refl

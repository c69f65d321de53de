-- ===== src/Packet/Types.antt =====
-- PacketParser/PacketParser.h, PacketParser/PacketParser.cpp and PacketParser/Artefacts.
use timing_proxy.Base.{
  ◌≡◌, ◌+◌, ◌^◌, ◌≤◌, ◌<◌, some, arith, ℕ, Bool, true, false, Option, none, List, take,
}
use timing_proxy.Packet.Memory.{Pointer}

pub data Layer : Type 0 where
  ethernet ipv4 ipv6 tcp udp : Layer

abbrev pub same_layer : Layer → Layer → Bool
same_layer ethernet ethernet = true
same_layer ipv4 ipv4 = true
same_layer ipv6 ipv6 = true
same_layer tcp tcp = true
same_layer udp udp = true
same_layer _ _ = false

-- The members that every parser inherits.
pub record PacketParser : Type 0 where
  pub packet : Pointer
  pub payload : Pointer
  pub packet_size : ℕ
  pub payload_size : ℕ

abbrev pub new_packet_parser : PacketParser
new_packet_parser = record { packet = none; payload = none; packet_size = 0; payload_size = 0 }

unfoldable pub get_payload : PacketParser → Pointer
get_payload this = this.payload

unfoldable pub get_payload_size : PacketParser → ℕ
get_payload_size this = this.payload_size

-- The addresses are C strings: the codes before the terminating zero.
pub record Artefacts : Type 0 where
  pub ip_type : Layer
  pub src_ip : List ℕ
  pub dst_ip : List ℕ
  pub payload_type : Layer
  pub src_port : ℕ
  pub dst_port : ℕ

-- The arrays `src_ip` and `dst_ip` have no initialiser: what they hold is a parameter.
unfoldable pub new_artefacts : List ℕ → List ℕ → Artefacts
new_artefacts src dst = record {
  ip_type = ipv4;
  src_ip = src;
  dst_ip = dst;
  payload_type = tcp;
  src_port = 0;
  dst_port = 0;
}

-- What `decodeUntil` writes through its last three arguments.
pub record Decoded : Type 0 where
  pub payload : Pointer
  pub payload_size : ℕ
  pub artefacts : Artefacts

-- `strncpy(dst, s, n)` of a text shorter than `n` codes copies it whole.
abbrev pub strncpy : ℕ → List ℕ → List ℕ
strncpy n s = take n s

-- `inet_ntop` of the C library, for the bytes of an IPv4 and of an IPv6 address: the text, or none
-- for the null pointer.
pub record Inet : Type 0 where
  pub ntop4 : List ℕ → Option (List ℕ)
  pub ntop6 : List ℕ → Option (List ℕ)

-- Where a payload decoded for a layer lies: nowhere; before `stop`; or, for TCP alone, up to 60 bytes
-- after the end of its segment, and its size has wrapped round by what it is too far.
pub data Reaches (layer : Layer) (stop : ℕ) (d : Decoded) : Type 0 where
  nothing : d.payload ≡ none → d.payload_size ≡ 0 → Reaches layer stop d
  inside : (p : ℕ) → d.payload ≡ some p → p + d.payload_size ≤ stop → Reaches layer stop d
  wrapped :
      (last p : ℕ)
      → layer ≡ tcp
      → last ≤ stop
      → d.payload ≡ some p
      → last < p
      → p ≤ last + 60
      → p + d.payload_size ≡ last + 2 ^ 64
      → Reaches layer stop d

pub Reaches-mono :
    {layer : Layer} {stop far : ℕ} (d : Decoded)
    → stop ≤ far
    → Reaches layer stop d
    → Reaches layer far d
Reaches-mono d le (nothing n z) = nothing n z
Reaches-mono d le (inside p at h) = inside p at (omega arith)
Reaches-mono d le (wrapped last p is_tcp ends at after near wraps) =
    wrapped last p is_tcp (omega arith) at after near wraps

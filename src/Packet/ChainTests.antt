-- ===== src/Packet/ChainTests.antt =====
-- IPv6 frames with extension headers: inputs for the theorems about them.
use timing_proxy.Base.{replicate}
use timing_proxy.Packet.Types.{ipv6}
use timing_proxy.Packet.Wire.{ExtHeader, Ipv6Header}
use timing_proxy.Packet.Ipv6.{is_extension_header}
use timing_proxy.Packet.Ipv6.Extensions.{IsChain, ends, links}
use timing_proxy.Packet.Ethernet.Wire6.{frame6, decode_packet-frame6_tcp, decode_packet-short_chain}
use timing_proxy.Base.{◌≡◌, refl, List, [], ◌∷◌, ◌++◌, some, length, ok, terminate, arith}
use timing_proxy.Packet.Memory.{Memory}
use timing_proxy.Packet.Types.{tcp}
use timing_proxy.Packet.Memory.Holds.{Holds}
use timing_proxy.Packet.Wire.{print_tcp}
use timing_proxy.Packet.Ethernet.{decode_packet}
use timing_proxy.Base.{replicate}
use timing_proxy.Packet.Tests.{
  raw_inet, blank, test_ethernet, test_tcp, test_payload, test_IsTcpHeader,
}

-- A hop-by-hop header of 8 bytes and a routing header of 16.
abbrev two_extensions : List ExtHeader
two_extensions =
    record { type = 0; units = 0; body = replicate 6 0 }
    ∷ record { type = 0x2b; units = 1; body = replicate 14 0 }
    ∷ []

abbrev test_ipv6 : Ipv6Header
test_ipv6 = record {
  traffic_class = 0x20;
  flow_label = 0x54321;
  payload_length = 84;
  next_header = 0;
  hop_limit = 64;
  src = replicate 16 1;
  dst = replicate 16 2;
}

extensions-IsChain : IsChain 6 60 two_extensions
unfolding is_extension_header
extensions-IsChain = links refl refl (omega arith) (links refl refl (omega arith) ends)

abbrev frame_with_extensions : Memory
frame_with_extensions =
    frame6 (record test_ethernet { type = 0x86dd }) test_ipv6 two_extensions
      (print_tcp test_tcp ++ test_payload) (0 ∷ 0 ∷ [])

decode_packet-frame6_tcp_example :
    (decode_packet raw_inet tcp frame_with_extensions (some 0) (length frame_with_extensions) blank
      ≡ ok (record {
        payload = some 110;
        payload_size = 28;
        artefacts = record blank {
          ip_type = ipv6;
          src_ip = replicate 16 1;
          dst_ip = replicate 16 2;
          payload_type = tcp;
          src_port = 0xc6c6;
          dst_port = 0x0539;
        };
      }))
    × Holds frame_with_extensions 110 test_payload
decode_packet-frame6_tcp_example =
    decode_packet-frame6_tcp raw_inet (record test_ethernet { type = 0x86dd }) test_ipv6
      two_extensions test_tcp test_payload (0 ∷ 0 ∷ []) (replicate 16 1) (replicate 16 2) blank
      (record { dhost = refl; shost = refl; type = omega arith })
      (record { traffic_class = omega arith; payload_length = omega arith; src = refl; dst = refl })
      test_IsTcpHeader refl refl refl extensions-IsChain (omega arith) refl refl

-- A segment without a payload behind a hop-by-hop header.
decode_packet-short_chain_example :
    let ip = record test_ipv6 { payload_length = 40 } in
    let frame =
      frame6
        (record test_ethernet { type = 0x86dd })
        ip
        (record { type = 0; units = 0; body = replicate 6 0 } ∷ [])
        (print_tcp test_tcp)
        [] in
    decode_packet raw_inet tcp frame (some 0) (length frame) blank ≡ terminate
unfolding is_extension_header
decode_packet-short_chain_example =
    decode_packet-short_chain raw_inet (record test_ethernet { type = 0x86dd })
      (record test_ipv6 { payload_length = 40 })
      (record { type = 0; units = 0; body = replicate 6 0 } ∷ []) (print_tcp test_tcp) []
      (replicate 16 1) (replicate 16 2) blank
      (record { dhost = refl; shost = refl; type = omega arith })
      (record { traffic_class = omega arith; payload_length = omega arith; src = refl; dst = refl })
      refl refl refl refl (omega arith) (omega arith) refl refl

-- ===== src/Pcap/Tests.antt =====
-- Runs of the callback and of the reader on small inputs, and inputs for the theorems.
use timing_proxy.Base.{true, ◌↔◌, drop, Outcome}
use timing_proxy.Packet.Types.{get_payload, get_payload_size, new_artefacts}
use timing_proxy.Packet.Memory.{load16, load32, load_bytes, ntohs, ntohl}
use timing_proxy.Packet.Ethernet
use timing_proxy.Packet.Ethernet.{decode_packet}
use timing_proxy.Packet.Ipv4
use timing_proxy.Packet.Tcp
use timing_proxy.Pcap.Reader.{Arrival}
use timing_proxy.Pcap.Callback.{store, direction_of}
use timing_proxy.Pcap.UserData.{put_slot}
use timing_proxy.Pcap.Reader.{start_loop, next_slot}
use timing_proxy.Pcap.Queue.Threads.{
  steady, Reach, here, next, fills, polls, is_changing, poll-Reach,
}
use timing_proxy.Base.{pos}
use timing_proxy.Os.Calls.{System, no_message}
use timing_proxy.Pcap.Open.{custom_pcap_open_live}
use timing_proxy.Pcap.Open.Handles.{Opened, custom_pcap_open_live-Opened}
use timing_proxy.Base.{
  ℕ, suc, ◌≡◌, refl, ◌⊎◌, false, List, [], ◌∷◌, ◌++◌, none, length, replicate, length-replicate, ok,
  throws, terminate, fault, invalid_argument, arith, ap, ◌>>=◌,
}
use timing_proxy.Packet.Wire.{TcpHeader, print_tcp}
use timing_proxy.Packet.Ethernet.Wire.{frame4}
use timing_proxy.Packet.Tests.{
  raw_inet, test_ethernet, test_ipv4, test_tcp, test_payload, test_IsEthernetHeader,
  test_IsIpv4Header, test_IsTcpHeader, ethernet_ipv4_tcp,
}
use timing_proxy.Timing.Timeval.{Timeval}
use timing_proxy.Pcap.Packets.{
  PacketInfo, PacketDirection, destination_remote, source_remote, memcmp_zero, same_bytes,
}
use timing_proxy.Pcap.UserData.{UserData, turned, reset_index, flip_buffer, claim_slot, fill_slot}
use timing_proxy.Pcap.Callback.{PacketHeader, handle_packet}
use timing_proxy.Pcap.Reader.{poll, switch_buffer, timing_for_packet, deliver}
use timing_proxy.Pcap.Queue.View.{IsValid}
use timing_proxy.Pcap.Queue.Push.{IsFull, Pushed, stored, push-Pushed}
use timing_proxy.Pcap.Queue.Search.{Found, timing_for_packet-Found}
use timing_proxy.Pcap.Queue.Answers.{Answers, timing_for_packet-Answers}
use timing_proxy.Pcap.Queue.Race.{poll-reset_index}
use timing_proxy.Pcap.Queue.Frames.{handle_packet-frame4_tcp, handle_packet-long_header}

abbrev noon : Timeval
noon = record { tv_sec = 43200; tv_usec = 0 }

abbrev later : Timeval
later = record { tv_sec = 43200; tv_usec = 250 }

abbrev slot : List ℕ → Timeval → PacketDirection → PacketInfo
slot bytes t d = record { payload = bytes; payload_size = length bytes; timing = t; direction = d }

abbrev empty_slot : PacketInfo
empty_slot = slot [] noon source_remote

abbrev host : List ℕ
host = 192 ∷ 168 ∷ 178 ∷ 59 ∷ []

-- Two packets wait, in the first two slots of buffer a.
abbrev pub two_waiting : UserData
two_waiting = record {
  shared_buffer_a =
      slot (7 ∷ 8 ∷ []) noon destination_remote
      ∷ slot (1 ∷ 2 ∷ 3 ∷ []) later source_remote
      ∷ replicate 998 empty_slot;
  shared_buffer_b = replicate 1000 empty_slot;
  active_buffer_consumer = false;
  active_buffer_producer = false;
  shared_buffer_index_producer = 2;
  shared_buffer_index_consumer = 0;
  linktype = 1;
  handle = 0;
  tstamp_precision = 0;
  remote_host = host;
  remote_port = 0x0539;
  stop_loop = false;
}

two_waiting-IsValid : IsValid two_waiting
two_waiting-IsValid = record {
  bounds = record {
    a_size = ap (λ (n : ℕ). suc (suc n)) (length-replicate 998 empty_slot);
    b_size = length-replicate 1000 empty_slot;
    producer_in = omega arith;
    consumer_in = omega arith;
    behind = λ _. omega arith;
  };
  ahead = λ e. cc;
}

-- "Just testing tcp over ipv4!" comes in the first round, when two other packets wait.
abbrev just_testing : Arrival
just_testing = record {
  header = record { ts = later; caplen = 94; len = 94 };
  packet = ethernet_ipv4_tcp;
}

abbrev three_rounds : List (List Arrival)
three_rounds = (just_testing ∷ []) ∷ [] ∷ [] ∷ []

abbrev just_testing_answer : Outcome (Timeval × UserData)
just_testing_answer =
    timing_for_packet raw_inet (drop 66 ethernet_ipv4_tcp) 28 destination_remote three_rounds
      two_waiting

abbrev when_answered : UserData
when_answered = elim just_testing_answer [ ok r ↦ r.1 | _ ↦ two_waiting ]

just_testing-answered : just_testing_answer ≡ ok (later, when_answered)
unfolding timing_for_packet deliver handle_packet store direction_of claim_slot fill_slot poll
    memcmp_zero same_bytes decode_packet Ethernet.decode_until Ethernet.parse_header
    Ipv4.decode_until Ipv4.parse_header Tcp.decode_until Tcp.parse_header Tcp.get_src_port
    Tcp.get_dst_port load16 load32 load_bytes ntohs ntohl get_payload get_payload_size new_artefacts
just_testing-answered = refl

timing_for_packet-Answers_example :
    Answers raw_inet
      (drop 66 ethernet_ipv4_tcp)
      28
      destination_remote
      three_rounds
      two_waiting
      later
      when_answered
timing_for_packet-Answers_example =
    timing_for_packet-Answers raw_inet (drop 66 ethernet_ipv4_tcp) 28 destination_remote
      three_rounds two_waiting later when_answered two_waiting-IsValid just_testing-answered

timing_for_packet-Found_example :
    Found later []
      (timing_for_packet raw_inet (1 ∷ 2 ∷ 3 ∷ []) 3 source_remote (replicate 5 []) two_waiting)
unfolding same_bytes
timing_for_packet-Found_example =
    timing_for_packet-Found raw_inet (1 ∷ 2 ∷ 3 ∷ []) 3 source_remote 5 two_waiting later []
      two_waiting-IsValid refl (omega arith)

push-Pushed_example :
    let run = claim_slot two_waiting >>= λ u'. fill_slot u' (9 ∷ []) 1 source_remote later in
    (IsFull two_waiting × (run ≡ terminate))
    ⊎ ((u' : UserData) × (run ≡ ok u')
        × Pushed two_waiting (stored (9 ∷ []) source_remote later) u')
push-Pushed_example = push-Pushed two_waiting (9 ∷ []) source_remote later two_waiting-IsValid

-- Buffer a is full and wholly read.
abbrev drained : UserData
drained = record two_waiting {
  shared_buffer_index_producer = 1000;
  shared_buffer_index_consumer = 1000;
}

drained-IsValid : IsValid drained
drained-IsValid = record {
  bounds = record {
    a_size = two_waiting-IsValid.a_size;
    b_size = two_waiting-IsValid.b_size;
    producer_in = omega arith;
    consumer_in = omega arith;
    behind = λ _. omega arith;
  };
  ahead = λ e. cc;
}

poll-reset_index_example :
    (poll (9 ∷ []) 1 source_remote drained ≡ ok (none, drained))
    × (poll (9 ∷ []) 1 source_remote (reset_index drained) ≡ fault)
    × (poll (9 ∷ []) 1 source_remote (flip_buffer (reset_index drained))
        ≡ ok (none, switch_buffer (turned drained)))
poll-reset_index_example =
    poll-reset_index (9 ∷ []) 1 source_remote drained drained-IsValid refl refl refl

abbrev captured : PacketHeader
captured = record { ts = later; caplen = 94; len = 94 }

-- The first frame of tests/PacketParserTest, caught on its way to the remote host.
handle_packet-frame4_tcp_example :
    let run = handle_packet raw_inet two_waiting captured ethernet_ipv4_tcp in
    (IsFull two_waiting × (run ≡ terminate))
    ⊎ ((u' : UserData) × (run ≡ ok u')
        × Pushed two_waiting (stored test_payload destination_remote later) u')
unfolding same_bytes
handle_packet-frame4_tcp_example =
    handle_packet-frame4_tcp raw_inet test_ethernet test_ipv4 test_tcp test_payload []
      (192 ∷ 168 ∷ 178 ∷ 44 ∷ []) host test_IsEthernetHeader test_IsIpv4Header test_IsTcpHeader refl
      refl (omega arith) refl refl two_waiting captured refl
      (record { running = refl; link = refl }) refl (omega arith) (omega arith) two_waiting-IsValid

-- A TCP header of 60 bytes.
abbrev long_tcp : TcpHeader
long_tcp = record test_tcp { offset = 15; options = replicate 40 1 }

-- The same frame with a TCP header that claims 60 bytes in a segment of 40.
handle_packet-long_header_example :
    handle_packet raw_inet two_waiting
      (record { ts = later; caplen = 94; len = 94 })
      (frame4 test_ethernet (record test_ipv4 { total_length = 60 }) (print_tcp long_tcp ++ []) [])
    ≡ throws (invalid_argument "Payload size greater 1500 bytes is not supported")
handle_packet-long_header_example =
    handle_packet-long_header raw_inet test_ethernet (record test_ipv4 { total_length = 60 })
      long_tcp [] [] (192 ∷ 168 ∷ 178 ∷ 44 ∷ []) host test_IsEthernetHeader
      (record { ihl = omega arith; total_length = omega arith; words = refl })
      (record {
        sport = omega arith;
        dport = omega arith;
        seq = omega arith;
        ack = omega arith;
        offset = omega arith;
        reserved = omega arith;
        words = refl;
      })
      refl refl (omega arith) refl refl two_waiting (record { ts = later; caplen = 94; len = 94 })
      refl (record { running = refl; link = refl }) (omega arith) (omega arith) (omega arith)

-- A device that can be opened; the handle is 1.
abbrev open_system : System
open_system w c = record {
  value = pos 1;
  bytes = [];
  events = 0;
  candidates = [];
  tv_sec = 0;
  tv_nsec = 0;
  eax = 0;
  edx = 0;
  errno = 0;
  message = no_message;
  tx_type = 0;
  rx_filter = 0;
}

custom_pcap_open_live-Opened_example :
    Opened (pos 1) (custom_pcap_open_live open_system host 8192 1 1000 [])
custom_pcap_open_live-Opened_example = custom_pcap_open_live-Opened open_system host 8192 1 1000 []

-- The callback has stored a packet, and the reader has passed it.
abbrev one_seen : UserData
one_seen = next_slot (put_slot (start_loop two_waiting) (slot [] noon source_remote))

one_seen-Reach : Reach (steady, start_loop two_waiting) (steady, one_seen)
unfolding start_loop poll memcmp_zero
one_seen-Reach =
    next (next here (fills (slot [] noon source_remote) (omega arith)))
      (polls (1 ∷ []) 1 destination_remote refl)

poll-Reach_example :
    (poll (1 ∷ []) 1 destination_remote one_seen ≡ fault)
    ↔ ((is_changing steady ≡ true) × (one_seen.shared_buffer_index_consumer ≡ 1000))
poll-Reach_example =
    poll-Reach (1 ∷ []) 1 destination_remote two_waiting (steady, one_seen) refl refl one_seen-Reach

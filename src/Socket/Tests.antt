-- ===== src/Socket/Tests.antt =====
-- Runs of the sockets against a small system.
use timing_proxy.Socket.Cpu.Stamps
use timing_proxy.Socket.Cpu.Stamps.{Late, write-Stamped, write-Late}
use timing_proxy.Base.{replicate, ◌++◌, none, false}
use timing_proxy.Os.Io.{is_ok}
use timing_proxy.Pcap.Tests.{two_waiting}
use timing_proxy.Pcap.Open.{PcapWrapper}
use timing_proxy.Socket.Pcap.{PcapTimingSocket, connect_pcap}
use timing_proxy.Socket.Pcap.Uninitialized.{connect_pcap-no_wrapper}
use timing_proxy.Base.{
  ℕ, ◌+◌, ◌≡◌, refl, min, arith, ℤ, pos, minus_one, true, List, [], ◌∷◌, length, Outcome, ok,
}
use timing_proxy.Os.Calls.{
  recv, Reply, System, no_message, AddrInfo, getaddrinfo, socket, send, epoll_create1, rdtsc,
}
use timing_proxy.TimeSources.{timestamp_counter}
use timing_proxy.Socket.Timing.{TimingSocket, established, uninitialized, connect_socket}
use timing_proxy.Socket.Timing.Descriptors.{Connected, connect_socket-Connected}
use timing_proxy.Socket.Server.{ServerSocket, write}
use timing_proxy.Socket.Server.Writes.{write-Delivered}
use timing_proxy.Socket.Cpu
use timing_proxy.Socket.Any.{Blank}
use timing_proxy.Socket.Laws.{KeepsFds}
use timing_proxy.Socket.Cpu.Class.{cpu_class}
use timing_proxy.Socket.Any.{any_class, kernel_class, pcap_class}
use timing_proxy.Socket.Any.Keeps.{any_class-KeepsFds}
use timing_proxy.Socket.Cpu.{CpuTimingSocket}
use timing_proxy.Socket.Cpu.Writes.{write-Sent}
use timing_proxy.Packet.Tests.{raw_inet, ethernet_ipv4_tcp, test_payload}
use timing_proxy.Packet.Ethernet
use timing_proxy.Packet.Ethernet.{decode_packet}
use timing_proxy.Packet.Ipv4
use timing_proxy.Packet.Tcp
use timing_proxy.Packet.Types.{get_payload, get_payload_size}
use timing_proxy.Packet.Memory.{load16, load32, load_bytes, ntohs, ntohl}
use timing_proxy.Pcap.Packets.{same_bytes}
use timing_proxy.Socket.Kernel.{KernelTimingSocket, get_tx_timestamp, find_message, carries}
use timing_proxy.Socket.Kernel.Stamps.{Stamped, get_tx_timestamp-Stamped}
use timing_proxy.Socket.Stream.{SendsSome, Delivered}

abbrev pub reply_of : ℤ → Reply
reply_of z = record {
  value = z;
  bytes = [];
  events = 0;
  candidates = [];
  tv_sec = 0;
  tv_nsec = 0;
  eax = 0;
  edx = 0;
  errno = 0;
  message = no_message;
  tx_type = 0;
  rx_filter = 0;
}

abbrev pub loopback : AddrInfo
loopback = record {
  ai_family = 2;
  ai_socktype = 1;
  ai_protocol = 6;
  ai_addr = 127 ∷ 0 ∷ 0 ∷ 1 ∷ [];
}

abbrev pub hello : List ℕ
hello = 104 ∷ 101 ∷ 108 ∷ 108 ∷ 111 ∷ []

-- Every send takes two bytes at most, a socket connects at once and the clock counts the calls.
abbrev pub demo_system : System
demo_system w (send sock bytes) = reply_of (pos (min 2 (length bytes)))
demo_system w (socket family type protocol) = reply_of (pos 4)
demo_system w epoll_create1 = reply_of (pos 5)
demo_system w (getaddrinfo host port) = record (reply_of (pos 0)) { candidates = loopback ∷ [] }
demo_system w (recv sock size blocking) = record (reply_of (pos 5)) { bytes = hello }
demo_system w rdtsc = record (reply_of (pos 0)) { eax = length w }
demo_system w _ = reply_of (pos 0)

pub demo_system-SendsSome : SendsSome demo_system
demo_system-SendsSome w sock bytes fine = (omega arith, λ some. omega arith)

abbrev pub server : ServerSocket
server = record { port = 80; sock = pos 3; client_sock = pos 7; epfd = pos 8; has_client = true }

abbrev client : TimingSocket
client = record { state = established; sock = pos 4; epfd = pos 5; host = []; port = 443 }

abbrev pub unconnected : TimingSocket
unconnected = record { state = uninitialized; sock = pos 0; epfd = pos 0; host = []; port = 0 }

abbrev pub cpu : CpuTimingSocket
cpu = record {
  base = client;
  best_timesource = timestamp_counter;
  cpu_features = record {
    processor_base_clock_hz = 1000000000;
    invariant_tsc = true;
    constant_tsc = true;
    rdtscp = true;
  };
  take_time_on_write = true;
  write_tstamp = 0;
  read_tstamp = 0;
}

-- The write goes out in three pieces and returns the size of the first.
write-first_piece : (write demo_system 6 server hello []).0 ≡ ok (pos 2)
unfolding write
write-first_piece = refl

write-Delivered_example :
    let run = write demo_system 6 server hello [] in Delivered (pos 7) [] hello run.0 run.1
write-Delivered_example =
    write-Delivered demo_system demo_system-SendsSome 6 server hello [] (omega arith)

write-Sent_example :
    let run = Cpu.write demo_system 6 cpu hello [] in Delivered (pos 4) [] hello run.0 run.1
write-Sent_example = write-Sent demo_system demo_system-SendsSome 6 cpu hello [] (omega arith)

connect_socket-Connected_example :
    Connected [] hello 80 (connect_socket demo_system unconnected hello 80 [])
connect_socket-Connected_example = connect_socket-Connected demo_system unconnected hello 80 []

abbrev pub kernel : KernelTimingSocket
kernel = record {
  base = client;
  tstamp_source = 2;
  device = [];
  device_supports_hardware_timestamping = true;
  tx_timestamp = record { tv_sec = 0; tv_nsec = 0 };
  rx_timestamp = record { tv_sec = 0; tv_nsec = 0 };
}

-- The error queue is empty at first; then it has a frame, stamped at second 7 by software and at
-- second 9 by the card.
abbrev queue_system : System
queue_system [] c = record (reply_of minus_one) { errno = 11 }
queue_system (x ∷ w) c = record (reply_of (pos 94)) {
  bytes = ethernet_ipv4_tcp ++ replicate 1406 0;
  message = record no_message {
    cmsg_level = 1;
    cmsg_type = 37;
    stamps = λ i. record { tv_sec = 7 + i; tv_nsec = 0 };
  };
}

abbrev seconds : Outcome KernelTimingSocket → ℕ
seconds (ok this) = this.tx_timestamp.tv_sec
seconds _ = 0

get_tx_timestamp-hardware :
    seconds (get_tx_timestamp raw_inet queue_system kernel test_payload []).0 ≡ 9
unfolding get_tx_timestamp find_message carries same_bytes decode_packet Ethernet.decode_until
    Ethernet.parse_header Ipv4.decode_until Ipv4.parse_header Tcp.decode_until Tcp.parse_header
    Tcp.get_src_port Tcp.get_dst_port load16 load32 load_bytes ntohs ntohl get_payload
    get_payload_size
get_tx_timestamp-hardware = refl

get_tx_timestamp-Stamped_example :
    Stamped raw_inet kernel test_payload 1000 []
      (get_tx_timestamp raw_inet queue_system kernel test_payload [])
get_tx_timestamp-Stamped_example =
    get_tx_timestamp-Stamped raw_inet kernel test_payload queue_system []

abbrev pub pcap_socket : PcapTimingSocket
pcap_socket = record {
  base = unconnected;
  pcap = none;
  pcap_initialized = false;
  tx_timestamp = record { tv_sec = 0; tv_usec = 0 };
  rx_timestamp = record { tv_sec = 0; tv_usec = 0 };
  device = [];
}

abbrev pub blank_wrapper : PcapWrapper
blank_wrapper = record { device = []; handle = pos 0; usrdata = two_waiting }

connect_pcap-no_wrapper_example :
    is_ok (connect_pcap demo_system blank_wrapper pcap_socket hello 443 []).0 ≡ false
connect_pcap-no_wrapper_example =
    connect_pcap-no_wrapper demo_system blank_wrapper pcap_socket hello 443 [] refl

write-Stamped_example : Stamps.Stamped cpu (Cpu.write demo_system 6 cpu hello [])
write-Stamped_example = write-Stamped demo_system 6 cpu hello [] refl

write-Late_example : Late cpu (Cpu.write demo_system 6 cpu hello [])
write-Late_example = write-Late demo_system 5 cpu hello [] refl refl refl refl

abbrev pub blank : Blank
blank = record { base = unconnected; kernel = kernel; pcap = pcap_socket; wrapper = blank_wrapper }

any_class-KeepsFds_example : KeepsFds (
    any_class
      (cpu_class demo_system 9)
      (kernel_class raw_inet demo_system 9)
      (pcap_class raw_inet demo_system 9 (λ w. []) blank_wrapper))
any_class-KeepsFds_example =
    any_class-KeepsFds raw_inet demo_system 9 (λ w. []) blank_wrapper (λ w fine. refl)

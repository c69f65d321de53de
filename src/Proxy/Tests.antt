-- ===== src/Proxy/Tests.antt =====
-- Runs of the proxy's text functions, and of getline on a control socket.
use timing_proxy.Proxy.{try_forward_output}
use timing_proxy.Proxy.Answers.{try_forward_output-Delivered}
use timing_proxy.Socket.Cpu
use timing_proxy.Socket.Timing.{read_base}
use timing_proxy.Base.{zero, suc, ◌/◌, ◌%◌, ◌^◌, true, false}
use timing_proxy.Os.Calls.{recv}
use timing_proxy.Os.Io.{◌>>=◌}
use timing_proxy.Socket.Timing.{pcap_kind}
use timing_proxy.Socket.Any.{create_timing_socket}
use timing_proxy.Socket.Tests.{blank, blank_wrapper}
use timing_proxy.Proxy.Interface.{set_interface}
use timing_proxy.Proxy.Kinds.{proxy_with, set_by_class, new_timing_proxy-set_interface}
use timing_proxy.Proxy.{get_proxy_target}
use timing_proxy.Proxy.Target.{get_proxy_target-two_lines}
use timing_proxy.Os.Calls.{Trace, accept_from, socket, epoll_create1, getaddrinfo}
use timing_proxy.Base.{Outcome, ◌+◌, length}
use timing_proxy.Socket.Epoll.Descriptors.{EpollAnswers}
use timing_proxy.Proxy.{handle_client, forward_both, any_peer_closed, forward_loop}
use timing_proxy.Proxy.Descriptors.{handle_client-SameFds}
use timing_proxy.Proxy.Ending.{forward_loop-closed}
use timing_proxy.Os.Descriptors.{open_fds, SameFds}
use timing_proxy.Socket.Server.{accept, close_client, peer_closed}
use timing_proxy.Socket.Epoll.{enable_epoll_with_events, socket_peer_closed}
use timing_proxy.Socket.Cpu.Keeps.{cpu_class-KeepsFds}
use timing_proxy.Socket.Timing.{
  closed, connect_socket, retrieve_connection_candidates, try_candidates, try_candidate,
  close_socket, timing_peer_closed,
}
use timing_proxy.Socket.Tests.{loopback, demo_system, demo_system-SendsSome, server, cpu, hello}
use timing_proxy.Socket.Stream.{Delivered}
use timing_proxy.Socket.Timing.{cpu_kind}
use timing_proxy.Socket.Cpu.{CpuTimingSocket}
use timing_proxy.Socket.Cpu.Class.{cpu_class}
use timing_proxy.Proxy.{TimingProxy, try_forward_input}
use timing_proxy.Proxy.Forward.{try_forward_input-Delivered, cpu_class-WritesBuffer}
use timing_proxy.Base.{arith}
use timing_proxy.Base.{
  ℕ, ◌≡◌, refl, pos, negsuc, true, List, [], ◌∷◌, ok, throws, out_of_fuel, invalid_argument,
  out_of_range,
}
use timing_proxy.Os.Calls.{Reply, System, no_message}
use timing_proxy.Socket.Server
use timing_proxy.Socket.Server.{ServerSocket}
use timing_proxy.Proxy.Text.{stoi, to_uint16}
use timing_proxy.Proxy.{getline}
use timing_proxy.Proxy.Lines.{Got, getline-Got, getline-closed}

abbrev got : List ℕ → ℕ → Reply
got bytes n = record {
  value = pos n;
  bytes = bytes;
  events = 0;
  candidates = [];
  tv_sec = 0;
  tv_nsec = 0;
  eax = 0;
  edx = 0;
  errno = 0;
  message = no_message;
  tx_type = 0;
  rx_filter = 0;
}

-- "ab", then "c\n8", then the end of the stream.
abbrev control_system : System
control_system [] c = got (97 ∷ 98 ∷ []) 2
control_system (x ∷ []) c = got (99 ∷ 10 ∷ 56 ∷ []) 3
control_system (x ∷ y ∷ w) c = got [] 0

abbrev closed_system : System
closed_system w c = got [] 0

abbrev control : ServerSocket
control = record { port = 5555; sock = pos 3; client_sock = pos 7; epfd = pos 8; has_client = true }

two_reads : (getline control_system 3 control [] []).0 ≡ ok (97 ∷ 98 ∷ 99 ∷ [], 56 ∷ [])
unfolding getline Server.read
two_reads = refl

stoi-port : stoi (32 ∷ 52 ∷ 52 ∷ 51 ∷ 13 ∷ []) ≡ ok (pos 443)
stoi-port = refl

stoi-minus : stoi (45 ∷ 49 ∷ []) ≡ ok (negsuc 0)
stoi-minus = refl

stoi-large :
    stoi (50 ∷ 49 ∷ 52 ∷ 55 ∷ 52 ∷ 56 ∷ 51 ∷ 54 ∷ 52 ∷ 56 ∷ []) ≡ throws (out_of_range "stoi")
stoi-large = refl

stoi-empty : stoi [] ≡ throws (invalid_argument "stoi")
stoi-empty = refl

to_uint16-minus : to_uint16 (negsuc 0) ≡ 65535
to_uint16-minus = refl

-- native_to_big on a machine with the lowest byte first: the bytes of a number, the highest first.
abbrev bytes_of : ℕ → ℕ → List ℕ
bytes_of zero n = []
bytes_of (suc width) n = n / 256 ^ width % 256 ∷ bytes_of width n

abbrev big_endian : ℕ → List ℕ
big_endian n = bytes_of 8 n

big_endian-number : big_endian 258 ≡ 0 ∷ 0 ∷ 0 ∷ 0 ∷ 0 ∷ 0 ∷ 1 ∷ 2 ∷ []
big_endian-number = refl

getline-Got_example : Got [] 2 [] (getline control_system 3 control [] [])
getline-Got_example = getline-Got control_system 2 control [] []

getline-closed_example : (getline closed_system 1000 control (97 ∷ []) []).0 ≡ out_of_fuel
getline-closed_example = getline-closed closed_system 1000 control (97 ∷ []) [] (λ v. refl) refl

abbrev proxy : TimingProxy CpuTimingSocket
proxy = record {
  proxy_input = server;
  control = control;
  proxy_output = cpu;
  connect_host = [];
  connect_port = pos 443;
  measurement_technique = cpu_kind;
}

try_forward_input-Delivered_example :
    let run = try_forward_input demo_system (cpu_class demo_system 2501) 2501 proxy [] in
    Delivered (pos 4) [] hello run.0 run.1
try_forward_input-Delivered_example =
    try_forward_input-Delivered demo_system (cpu_class demo_system 2501)
      (cpu_class-WritesBuffer demo_system demo_system-SendsSome) 2501 proxy [] refl refl
      (omega arith)

-- "ab" and "443" on a line each.
abbrev naming_system : System
naming_system w c = got (97 ∷ 98 ∷ 10 ∷ 52 ∷ 52 ∷ 51 ∷ 10 ∷ []) 7

get_proxy_target-two_lines_example :
    get_proxy_target naming_system (cpu_class naming_system 2501) 2 proxy [] ≡ (
      ok (record proxy { connect_host = 97 ∷ 98 ∷ []; connect_port = pos 443 }),
      (recv (pos 7) 1024 true, naming_system [] (recv (pos 7) 1024 true)) ∷ [],
    )
get_proxy_target-two_lines_example =
    get_proxy_target-two_lines naming_system (cpu_class naming_system 2501) 0 proxy (97 ∷ 98 ∷ [])
      (52 ∷ 52 ∷ 51 ∷ []) [] (pos 443) [] refl refl refl refl refl

-- A client that names "ab" and port 443 on the control connection and closes the other at once.
abbrev visit_system : System
visit_system w (recv sock size true) = got (97 ∷ 98 ∷ 10 ∷ 52 ∷ 52 ∷ 51 ∷ 10 ∷ []) 7
visit_system w (accept_from sock) = got [] (6 + length w)
visit_system w (socket family type protocol) = got [] 4
visit_system w epoll_create1 = got [] (6 + length w)
visit_system w (getaddrinfo host port) = record (got [] 0) { candidates = loopback ∷ [] }
visit_system w _ = got [] 0

visit_system-EpollAnswers : EpollAnswers visit_system
visit_system-EpollAnswers w fine = refl

abbrev visit : Outcome (TimingProxy CpuTimingSocket) × Trace
visit = handle_client visit_system (cpu_class visit_system 10) 10 big_endian 1 proxy []

abbrev served : TimingProxy CpuTimingSocket
served = record proxy {
  proxy_input = record server { client_sock = pos 10; epfd = pos 11; has_client = false };
  control = record control { client_sock = pos 6; epfd = pos 7; has_client = false };
  proxy_output = record cpu {
    base = record { state = closed; sock = pos 4; epfd = pos 16; host = 97 ∷ 98 ∷ []; port = 443 };
  };
  connect_host = 97 ∷ 98 ∷ [];
  connect_port = pos 443;
}

visit-returns : visit ≡ (ok served, visit.1)
unfolding handle_client get_proxy_target getline try_forward_input forward_both any_peer_closed
    forward_loop Server.read accept close_client peer_closed connect_socket
    retrieve_connection_candidates try_candidates try_candidate enable_epoll_with_events
    socket_peer_closed close_socket timing_peer_closed
visit-returns = refl

handle_client-SameFds_example : SameFds (open_fds visit.1) []
handle_client-SameFds_example =
    handle_client-SameFds visit_system (cpu_class visit_system 10) 10 visit_system-EpollAnswers
      (cpu_class-KeepsFds visit_system visit_system-EpollAnswers 10) big_endian 1 proxy [] served
      visit.1 visit-returns

forward_loop-closed_example :
    (forward_loop visit_system (cpu_class visit_system 10) 10 big_endian 1 proxy []).0 ≡ ok proxy
forward_loop-closed_example =
    forward_loop-closed visit_system (cpu_class visit_system 10) 10 (λ w epfd. refl) big_endian 0
      proxy [] refl

abbrev answering : TimingProxy CpuTimingSocket
answering = record proxy { proxy_input = record server { client_sock = pos 9 } }

abbrev after_read : Trace
after_read = (recv (pos 4) 2500 false, demo_system [] (recv (pos 4) 2500 false)) ∷ []

try_forward_output-Delivered_example :
    let run =
      try_forward_output demo_system (cpu_class demo_system 2501) 2501 big_endian answering [] in
    Delivered (pos 9) after_read hello run.0 run.1
    × Delivered (pos 7) after_read (big_endian 0) run.0 run.1
unfolding Cpu.read read_base Cpu.get_last_measurement
try_forward_output-Delivered_example =
    try_forward_output-Delivered demo_system (cpu_class demo_system 2501) demo_system-SendsSome 2501
      big_endian answering [] after_read cpu (pos 5) hello 0 refl refl refl (omega arith) refl refl
      (omega arith) refl

new_timing_proxy-set_interface_example :
    (create_timing_socket demo_system blank pcap_kind >>= λ output.
    proxy_with demo_system blank server blank_wrapper 4444 5555 pcap_kind output >>= λ made.
    set_interface demo_system blank_wrapper made (108 ∷ 111 ∷ []))
      []
    ≡ (create_timing_socket demo_system blank pcap_kind >>= λ output.
          proxy_with demo_system blank server blank_wrapper 4444 5555 pcap_kind output >>= λ made.
          set_by_class demo_system blank_wrapper made (108 ∷ 111 ∷ []))
        []
new_timing_proxy-set_interface_example =
    new_timing_proxy-set_interface demo_system blank server blank_wrapper 4444 5555 pcap_kind
      (108 ∷ 111 ∷ []) []

-- ===== src/Os/Calls.antt =====
-- The system calls and processor instructions of the sockets and the time sources, and what the system answers. The system is a parameter: it
-- answers from the calls made so far.
use timing_proxy.Base.{ℕ, ℤ, List, Bool, false}
use timing_proxy.Timing.Timespec.{Timespec}

-- One result of getaddrinfo: the arguments of socket(), and the address for connect().
pub record AddrInfo : Type 0 where
  pub ai_family : ℕ
  pub ai_socktype : ℕ
  pub ai_protocol : ℕ
  pub ai_addr : List ℕ

-- The expressions of a capture filter that the proxy writes.
pub data Filter : Type 0 where
  src_port dst_port : ℕ → Filter
  src_host dst_host : List ℕ → Filter
  both either : Filter → Filter → Filter

-- What recvmsg says beside the bytes: flags, and the first control message with its time stamps.
pub record Message : Type 0 where
  pub is_truncated : Bool
  pub is_control_truncated : Bool
  pub controllen : ℕ
  pub cmsg_level : ℕ
  pub cmsg_type : ℕ
  pub stamps : ℕ → Timespec

-- `msg` as the sources set it up, with an empty buffer of 512 bytes for the control message.
abbrev pub no_message : Message
no_message = record {
  is_truncated = false;
  is_control_truncated = false;
  controllen = 512;
  cmsg_level = 0;
  cmsg_type = 0;
  stamps = λ _. record { tv_sec = 0; tv_nsec = 0 };
}

pub data Call : Type 0 where
  getaddrinfo : List ℕ → ℕ → Call
  freeaddrinfo : Call
  socket : ℕ → ℕ → ℕ → Call
  connect : ℤ → List ℕ → Call
  close : ℤ → Call
  send : ℤ → List ℕ → Call
  recv : ℤ → ℕ → Bool → Call
  recv_peek : ℤ → ℕ → Call
  epoll_create1 : Call
  epoll_ctl_add : ℤ → ℤ → ℕ → ℤ → Call
  epoll_wait : ℤ → Call
  set_v6only : ℤ → ℕ → Call
  set_reuseaddr : ℤ → ℕ → Call
  bind_port : ℤ → ℕ → Call
  listen_on : ℤ → ℕ → Call
  accept_from : ℤ → Call
  sleep_ms : ℕ → Call
  recvmsg : ℤ → ℕ → Bool → Bool → Call
  get_hwtstamp : ℤ → List ℕ → Call
  set_hwtstamp : ℤ → List ℕ → Call
  set_timestamping : ℤ → ℕ → Call
  inet_pton4 : List ℕ → Call
  inet_pton6 : List ℕ → Call
  pcap_lookupdev : Call
  pcap_lookupnet : List ℕ → Call
  pcap_create : List ℕ → Call
  pcap_list_tstamp_types : ℤ → Call
  pcap_free_tstamp_types : ℤ → Call
  pcap_set_tstamp_type : ℤ → ℕ → Call
  pcap_get_tstamp_precision : ℤ → Call
  pcap_set_tstamp_precision : ℤ → ℕ → Call
  pcap_set_immediate_mode : ℤ → ℕ → Call
  pcap_set_snaplen : ℤ → ℕ → Call
  pcap_set_promisc : ℤ → ℕ → Call
  pcap_set_timeout : ℤ → ℕ → Call
  pcap_activate : ℤ → Call
  pcap_datalink : ℤ → Call
  pcap_compile : ℤ → Filter → ℕ → Call
  pcap_setfilter : ℤ → Call
  pcap_breakloop : ℤ → Call
  pcap_close : ℤ → Call
  cpuid : ℕ → Call
  rdtsc : Call
  clock_gettime : Call
  sleep_s : ℕ → Call
  read_cpuinfo : Call

-- The result, and what the call writes through its pointers: the bytes that were received (for
-- recvmsg what the caller's array holds after the call, the bytes behind those received too), the
-- events of epoll, the candidates of getaddrinfo, the clock's seconds and
-- nanoseconds, the two registers of an instruction that are read.
pub record Reply : Type 0 where
  pub value : ℤ
  pub bytes : List ℕ
  pub events : ℕ
  pub candidates : List AddrInfo
  pub tv_sec : ℕ
  pub tv_nsec : ℕ
  pub eax : ℕ
  pub edx : ℕ
  pub errno : ℕ
  pub message : Message
  pub tx_type : ℕ
  pub rx_filter : ℕ

-- The calls made so far, the latest first.
abbrev pub Trace : Type 0
Trace = List (Call × Reply)

abbrev pub System : Type 0
System = Trace → Call → Reply

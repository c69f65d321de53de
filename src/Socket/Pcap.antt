-- ===== src/Socket/Pcap.antt =====
-- PCAPTimingSocket.cpp: time stamps from a capture of the packets.
pub mod Uninitialized
pub mod Keeps
use timing_proxy.Base.{
  ℕ, zero, suc, ℤ, pos, is_negative, same_int, to_size, Bool, true, false, not, ◌&&◌, ◌||◌, List,
  Option, none, some, take, length, Outcome, ok, fault, out_of_fuel, invalid_argument, ◌==◌,
  if◌then◌else◌,
}
use timing_proxy.Base
use timing_proxy.Os.Calls.{System, Trace, inet_pton4, inet_pton6}
use timing_proxy.Os.Io.{Io, ◌>>=◌, ◌>>◌, pure, end, call, io_throw_if}
use timing_proxy.Timing.Timeval.{Timeval, timeval_delta_to_ns}
use timing_proxy.Packet.Types.{Inet}
use timing_proxy.Pcap.Packets.{PacketDirection, destination_remote, source_remote}
use timing_proxy.Pcap.Reader.{Arrival, timing_for_packet, get_precision}
use timing_proxy.Pcap.Open.{
  PcapWrapper, new_on, new_on_default, set_filter, start_capture, stop_capture,
}
use timing_proxy.Socket.Timing.{TimingSocket, connect_socket, write_base, read_base, close_socket}

-- `pcap` is the unique_ptr.
pub record PcapTimingSocket : Type 0 where
  pub base : TimingSocket
  pub pcap : Option PcapWrapper
  pub pcap_initialized : Bool
  pub tx_timestamp : Timeval
  pub rx_timestamp : Timeval
  pub device : List ℕ

-- A call through the unique_ptr.
abbrev pub pcap_of : PcapTimingSocket → Outcome PcapWrapper
pcap_of this = elim this.pcap [ none ↦ fault | some pcap ↦ ok pcap ]

unfoldable pub pcap_measurement : PcapTimingSocket → Outcome ℕ
unfolding get_precision
pcap_measurement this = elim this.pcap [
  | none ↦ fault
  | some pcap ↦ timeval_delta_to_ns (get_precision pcap.usrdata) this.tx_timestamp this.rx_timestamp
]

module _ (system : System) where
  unfoldable pub is_valid_ipv4_address : List ℕ → Io Bool
  is_valid_ipv4_address ip_address = do
    result ← call system (inet_pton4 ip_address)
    pure (not (same_int result.value (pos 0)))

  unfoldable pub is_valid_ipv6_address : List ℕ → Io Bool
  is_valid_ipv6_address ip_address = do
    result ← call system (inet_pton6 ip_address)
    pure (not (same_int result.value (pos 0)))

  -- The first `if`: an address that is not one of IPv4 is tried as one of IPv6.
  unfoldable pub is_valid_address : List ℕ → Io Bool
  unfolding is_valid_ipv4_address is_valid_ipv6_address
  is_valid_address host = do
    v4 ← is_valid_ipv4_address host
    if v4 then pure true else is_valid_ipv6_address host

  -- `blank` is a PcapWrapper before its constructor has run.
  unfoldable pub init_pcap : PcapWrapper → PcapTimingSocket → List ℕ → Io PcapTimingSocket
  init_pcap blank this device = do
    pcap ← new_on system blank device
    pure (record this { pcap = some pcap; pcap_initialized = true; device = device })

  -- The wrapper for the default interface is made and dropped: `pcap` stays as it is.
  unfoldable pub open_default : PcapWrapper → PcapTimingSocket → Io (Unit {0})
  open_default blank this =
      if this.pcap_initialized
      then pure tt
      else (new_on_default system blank >>= λ dropped. pure tt)

  -- From `pcap->setFilter` on.
  unfoldable pub start_on : PcapTimingSocket → List ℕ → ℕ → Io PcapTimingSocket
  start_on this host port = do
    pcap ← end (pcap_of this)
    filtered ← set_filter system pcap host port
    base ← connect_socket system this.base host port
    pure (record this { base = base; pcap = some (start_capture system filtered) })

  unfoldable pub connect_pcap : PcapWrapper → PcapTimingSocket → List ℕ → ℕ → Io PcapTimingSocket
  unfolding open_default start_on
  connect_pcap blank this host port = do
    valid ← is_valid_address host
    io_throw_if (not valid) (
        invalid_argument
          "Current pcap implementation needs an ip address in order to correlate packets.")
    open_default blank this
    start_on this host port

  unfoldable pub close_pcap : PcapTimingSocket → Io PcapTimingSocket
  close_pcap this = do
    pcap ← end (pcap_of this)
    stopped ← stop_capture system pcap
    base ← close_socket system this.base
    pure (record this { base = base; pcap = some stopped })

-- What the capture thread stores while timingForPacket looks for a packet, by the calls made so far.
abbrev pub Capture : Type 0
Capture = Trace → List (List Arrival)

module _ (inet : Inet) (system : System) (capture : Capture) where
  -- The time stamp of a packet, and the object with the packets read.
  unfoldable pub time_packet :
      PcapTimingSocket → List ℕ → PacketDirection → Io (Timeval × PcapTimingSocket)
  time_packet this bytes direction w = (
    Base.◌>>=◌ (pcap_of this) (λ pcap.
        Base.◌>>=◌ (timing_for_packet inet bytes (length bytes) direction (capture w) pcap.usrdata)
          (λ r. ok (r.0, record this { pcap = some (record pcap { usrdata = r.1 }) }))),
    w,
  )

  -- The rest after a short send is written by this same method.
  unfoldable pub write : ℕ → PcapTimingSocket → List ℕ → Io PcapTimingSocket
  write zero this bytes = end out_of_fuel
  write (suc fuel) this bytes = do
    sent ← write_base system PcapTimingSocket.base (write fuel) this bytes
    timed ← time_packet sent bytes destination_remote
    pure (record timed.1 { tx_timestamp = timed.0 })

  unfoldable pub read : PcapTimingSocket → ℕ → Bool → Io (PcapTimingSocket × (ℤ × List ℕ))
  read this size blocking = do
    received ← read_base system this.base size blocking
    if is_negative received.0 || same_int received.0 (pos 0)
        then pure (this, received)
        else (time_packet this (take (to_size received.0) received.1) source_remote >>= λ timed.
            pure (record timed.1 { rx_timestamp = timed.0 }, received))

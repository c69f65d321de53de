-- ===== src/Socket/Kernel.antt =====
-- KernelTimingSocket.cpp: the time stamps that the kernel or the network card puts on packets.
pub mod Compared
pub mod Stamps
pub mod Keeps
use timing_proxy.Base.{
  ℕ, zero, suc, ◌+◌, ℤ, pos, is_negative, same_int, to_size, Bool, true, false, not, ◌&&◌, ◌||◌,
  List, [], ◌∷◌, some, take, length, Outcome, ok, terminate, out_of_fuel, invalid_argument,
  runtime_error, ◌==◌, if◌then◌else◌,
}
use timing_proxy.Base
use timing_proxy.Os.Calls.{
  Call, Reply, Message, System, recvmsg, get_hwtstamp, set_hwtstamp, set_timestamping, sleep_ms,
}
use timing_proxy.Os.Io.{Io, ◌>>=◌, ◌>>◌, pure, end, call, io_throw_if, io_terminate_if}
use timing_proxy.Timing.Timespec.{Timespec, timespec_diff}
use timing_proxy.Packet.Memory.{Memory, load_bytes}
use timing_proxy.Packet.Types.{Inet, tcp, new_artefacts}
use timing_proxy.Packet.Ethernet.{decode_packet}
use timing_proxy.Pcap.Packets.{same_bytes}
use timing_proxy.Socket.Timing.{TimingSocket, connect_socket, write_base}

abbrev pub eagain : ℕ
eagain = 11

abbrev pub econnreset : ℕ
econnreset = 104

abbrev pub sol_socket : ℕ
sol_socket = 1

abbrev pub so_timestamping : ℕ
so_timestamping = 37

abbrev pub timestamping_message_max_retries : ℕ
timestamping_message_max_retries = 1000

-- SOF_TIMESTAMPING_RX_HARDWARE | TX_HARDWARE | RAW_HARDWARE, and their software counterparts.
abbrev pub so_timestamping_options_hardware : ℕ
so_timestamping_options_hardware = 69

abbrev pub so_timestamping_options_software : ℕ
so_timestamping_options_software = 26

-- `enum TSTAMP_SOURCE`, an index into the stamps of a message.
abbrev pub software_source : ℕ
software_source = 0

abbrev pub hardware_source : ℕ
hardware_source = 2

pub record KernelTimingSocket : Type 0 where
  pub base : TimingSocket
  pub tstamp_source : ℕ
  pub device : List ℕ
  pub device_supports_hardware_timestamping : Bool
  pub tx_timestamp : Timespec
  pub rx_timestamp : Timespec

-- "127.0.0.1", "::1" and "lo"
abbrev pub loopback4 : List ℕ
loopback4 = 49 ∷ 50 ∷ 55 ∷ 46 ∷ 48 ∷ 46 ∷ 48 ∷ 46 ∷ 49 ∷ []

abbrev pub loopback6 : List ℕ
loopback6 = 58 ∷ 58 ∷ 49 ∷ []

abbrev pub loopback_device : List ℕ
loopback_device = 108 ∷ 111 ∷ []

unfoldable pub kernel_measurement : KernelTimingSocket → Outcome ℕ
kernel_measurement this = timespec_diff this.rx_timestamp this.tx_timestamp

unfoldable pub set_device : KernelTimingSocket → List ℕ → KernelTimingSocket
set_device this device = record this { device = device }

-- The tests that `continue` before the packet is looked at: the message carries a time stamp.
abbrev pub is_stamped : Message → Bool
is_stamped msg =
    not msg.is_truncated
    && (not msg.is_control_truncated
        && (not (msg.controllen == 0)
            && ((msg.cmsg_level == sol_socket) && (msg.cmsg_type == so_timestamping))))

module _ (inet : Inet) where
  -- The bytes at the payload of the packet in the error queue are the data. `data_buf` is the whole
  -- array after recvmsg: behind the `rc` bytes that it wrote are those that were there before, and
  -- memcmp compares them too.
  unfoldable pub carries : Memory → ℕ → List ℕ → Outcome Bool
  carries data_buf rc bytes =
      Base.◌>>=◌ (decode_packet inet tcp data_buf (some 0) rc (new_artefacts [] [])) (λ d.
        Base.◌>>=◌ (load_bytes data_buf d.payload 0 (length bytes))
          (λ sent. ok (same_bytes sent bytes)))

module _ (inet : Inet) (system : System) where
  -- The `for`, with the number of rounds left: the message with the stamp of the packet that carries
  -- the data. An error other than EAGAIN leaves the empty message that the source prepared.
  unfoldable pub find_message : ℕ → KernelTimingSocket → List ℕ → Io Message
  find_message zero this bytes =
      end (Outcome.throws (runtime_error "Could not get TX timestamp from interface"))
  find_message (suc retries) this bytes = do
    received ← call system (recvmsg this.base.sock 1500 true true)
    if is_negative received.value
        then (if received.errno == eagain
            then (call system (sleep_ms 1) >> find_message retries this bytes)
            else find_message retries this bytes)
        else if is_stamped received.message
        then (end (carries inet received.bytes (to_size received.value) bytes) >>= λ found.
            if found then pure received.message else find_message retries this bytes)
        else find_message retries this bytes

  unfoldable pub get_tx_timestamp : KernelTimingSocket → List ℕ → Io KernelTimingSocket
  get_tx_timestamp this bytes = do
    message ← find_message timestamping_message_max_retries this bytes
    pure (record this { tx_timestamp = message.stamps this.tstamp_source })

  -- The rest after a short send is written by this same method.
  unfoldable pub write : ℕ → KernelTimingSocket → List ℕ → Io KernelTimingSocket
  write zero this bytes = end out_of_fuel
  write (suc fuel) this bytes =
      write_base system KernelTimingSocket.base (write fuel) this bytes >>= λ sent.
      get_tx_timestamp sent bytes

module _ (system : System) where
  -- What `read` does with a message that has bytes.
  unfoldable pub stamp_read : KernelTimingSocket → Reply → Io (KernelTimingSocket × (ℤ × List ℕ))
  stamp_read this received = do
    io_terminate_if received.message.is_truncated
    io_terminate_if received.message.is_control_truncated
    if received.message.controllen == 0
        then pure (this, (Base.minus_one, received.bytes))
        else (io_terminate_if (not (received.message.cmsg_level == sol_socket))
            >> io_terminate_if (not (received.message.cmsg_type == so_timestamping))
            >> pure (
              record this { rx_timestamp = received.message.stamps this.tstamp_source },
              (received.value, received.bytes),
            ))

  unfoldable pub read : KernelTimingSocket → ℕ → Bool → Io (KernelTimingSocket × (ℤ × List ℕ))
  unfolding stamp_read
  read this size blocking = do
    received ← call system (recvmsg this.base.sock size false blocking)
    if same_int received.value (pos 0)
        then pure (this, (received.value, received.bytes))
        else if is_negative received.value
        then (if received.errno == eagain
            then pure (this, (received.value, received.bytes))
            else if received.errno == econnreset
            then end (Outcome.throws (runtime_error "Connection reset"))
            else end terminate)
        else stamp_read this received

  -- HWTSTAMP_TX_ON and HWTSTAMP_FILTER_ALL are both 1.
  unfoldable pub initialize_device : KernelTimingSocket → Io KernelTimingSocket
  initialize_device this = do
    config ← call system (get_hwtstamp this.base.sock this.device)
    if same_int config.value (pos 0) && ((config.tx_type == 1) && (config.rx_filter == 1))
        then pure (record this { device_supports_hardware_timestamping = true })
        else (call system (set_hwtstamp this.base.sock this.device) >>= λ enabled.
            pure (record this {
              device_supports_hardware_timestamping = same_int enabled.value (pos 0);
            }))

  unfoldable pub use_software : KernelTimingSocket → Io KernelTimingSocket
  use_software this = do
    software ← call system (set_timestamping this.base.sock so_timestamping_options_software)
    io_throw_if (not (same_int software.value (pos 0)))
        (runtime_error "Unable to enable timestamping on the socket")
    pure (record this { tstamp_source = software_source })

  unfoldable pub initialize_socket : KernelTimingSocket → Io KernelTimingSocket
  unfolding use_software
  initialize_socket this =
      if this.device_supports_hardware_timestamping
      then (call system (set_timestamping this.base.sock so_timestamping_options_hardware)
          >>= λ hardware.
              if same_int hardware.value (pos 0)
              then pure (record this { tstamp_source = hardware_source })
              else use_software this)
      else use_software this

  unfoldable pub connect_kernel : KernelTimingSocket → List ℕ → ℕ → Io KernelTimingSocket
  connect_kernel this host port = do
    io_throw_if
        (same_bytes host loopback4
          || (same_bytes host loopback6 || same_bytes this.device loopback_device))
        (invalid_argument "kernel timestamping on loopback does not work")
    base ← connect_socket system this.base host port
    ready ← initialize_device (record this { base = base })
    initialize_socket ready

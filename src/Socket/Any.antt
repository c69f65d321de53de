-- ===== src/Socket/Any.antt =====
-- TimingSocket::createTimingSocket and the virtual methods of the three classes that it makes.
pub mod Keeps
use timing_proxy.Base.{ℕ, ℤ, Bool, List, Outcome, ok, fault}
use timing_proxy.Os.Calls.{System}
use timing_proxy.Os.Io.{Io, ◌>>=◌, pure, end}
use timing_proxy.Packet.Types.{Inet}
use timing_proxy.Pcap.Open.{PcapWrapper}
use timing_proxy.Socket.Timing.{
  TimingSocket, KindOfSocket, cpu_kind, kernel_kind, pcap_kind, SocketClass, close_socket,
}
use timing_proxy.Socket.Cpu
use timing_proxy.Socket.Cpu.{CpuTimingSocket}
use timing_proxy.Socket.Cpu.Class.{cpu_class}
use timing_proxy.Socket.Kernel
use timing_proxy.Socket.Kernel.{KernelTimingSocket, connect_kernel, kernel_measurement, set_device}
use timing_proxy.Socket.Pcap
use timing_proxy.Socket.Pcap.{
  PcapTimingSocket, Capture, connect_pcap, close_pcap, pcap_measurement, init_pcap,
}

-- Memory before the constructors have run. The members that a constructor or an initializer sets are
-- set in it already.
pub record Blank : Type 0 where
  pub base : TimingSocket
  pub kernel : KernelTimingSocket
  pub pcap : PcapTimingSocket
  pub wrapper : PcapWrapper

-- The object behind a `unique_ptr<TimingSocket>`.
pub data AnySocket : Type 0 where
  cpu_socket : CpuTimingSocket → AnySocket
  kernel_socket : KernelTimingSocket → AnySocket
  pcap_socket : PcapTimingSocket → AnySocket

unfoldable pub create_timing_socket : System → Blank → KindOfSocket → Io AnySocket
create_timing_socket system blank cpu_kind =
    Cpu.init system blank.base >>= λ made. pure (cpu_socket made)
create_timing_socket system blank kernel_kind = pure (kernel_socket blank.kernel)
create_timing_socket system blank pcap_kind = pure (pcap_socket blank.pcap)

-- `dynamic_cast`, and a method called through the pointer that it gives.
abbrev pub as_kernel : AnySocket → Outcome KernelTimingSocket
as_kernel (kernel_socket this) = ok this
as_kernel _ = fault

abbrev pub as_pcap : AnySocket → Outcome PcapTimingSocket
as_pcap (pcap_socket this) = ok this
as_pcap _ = fault

-- The interface for the class of this kind, through the cast that it needs. A CPUTimingSocket has none.
unfoldable pub set_socket_interface :
    System → PcapWrapper → KindOfSocket → AnySocket → List ℕ → Io AnySocket
set_socket_interface system wrapper cpu_kind this interface = pure this
set_socket_interface system wrapper kernel_kind this interface =
    end (as_kernel this) >>= λ socket. pure (kernel_socket (set_device socket interface))
set_socket_interface system wrapper pcap_kind this interface = end (as_pcap this) >>= λ socket.
    init_pcap system wrapper socket interface >>= λ ready. pure (pcap_socket ready)

module _ (inet : Inet) (system : System) (fuel : ℕ) where
  abbrev pub kernel_class : SocketClass KernelTimingSocket
  kernel_class = record {
    base_of = KernelTimingSocket.base;
    connect_to = connect_kernel system;
    write_to = Kernel.write inet system fuel;
    read_from = Kernel.read system;
    close_of = λ this. close_socket system this.base >>= λ base. pure (record this { base = base });
    measurement = kernel_measurement;
  }

  module _ (capture : Capture) (wrapper : PcapWrapper) where
    abbrev pub pcap_class : SocketClass PcapTimingSocket
    pcap_class = record {
      base_of = PcapTimingSocket.base;
      connect_to = connect_pcap system wrapper;
      write_to = Pcap.write inet system capture fuel;
      read_from = Pcap.read inet system capture;
      close_of = close_pcap system;
      measurement = pcap_measurement;
    }

-- The virtual calls: the method of the object's own class.
module _ (cpu : SocketClass CpuTimingSocket) (kernel : SocketClass KernelTimingSocket)
    (pcap : SocketClass PcapTimingSocket) where
  abbrev pub any_base : AnySocket → TimingSocket
  any_base (cpu_socket this) = cpu.base_of this
  any_base (kernel_socket this) = kernel.base_of this
  any_base (pcap_socket this) = pcap.base_of this

  abbrev pub any_connect : AnySocket → List ℕ → ℕ → Io AnySocket
  any_connect (cpu_socket this) host port =
      cpu.connect_to this host port >>= λ that. pure (cpu_socket that)
  any_connect (kernel_socket this) host port =
      kernel.connect_to this host port >>= λ that. pure (kernel_socket that)
  any_connect (pcap_socket this) host port =
      pcap.connect_to this host port >>= λ that. pure (pcap_socket that)

  abbrev pub any_write : AnySocket → List ℕ → Io AnySocket
  any_write (cpu_socket this) bytes = cpu.write_to this bytes >>= λ that. pure (cpu_socket that)
  any_write (kernel_socket this) bytes =
      kernel.write_to this bytes >>= λ that. pure (kernel_socket that)
  any_write (pcap_socket this) bytes = pcap.write_to this bytes >>= λ that. pure (pcap_socket that)

  abbrev pub any_read : AnySocket → ℕ → Bool → Io (AnySocket × (ℤ × List ℕ))
  any_read (cpu_socket this) size blocking =
      cpu.read_from this size blocking >>= λ r. pure (cpu_socket r.0, r.1)
  any_read (kernel_socket this) size blocking =
      kernel.read_from this size blocking >>= λ r. pure (kernel_socket r.0, r.1)
  any_read (pcap_socket this) size blocking =
      pcap.read_from this size blocking >>= λ r. pure (pcap_socket r.0, r.1)

  abbrev pub any_close : AnySocket → Io AnySocket
  any_close (cpu_socket this) = cpu.close_of this >>= λ that. pure (cpu_socket that)
  any_close (kernel_socket this) = kernel.close_of this >>= λ that. pure (kernel_socket that)
  any_close (pcap_socket this) = pcap.close_of this >>= λ that. pure (pcap_socket that)

  abbrev pub any_measurement : AnySocket → Outcome ℕ
  any_measurement (cpu_socket this) = cpu.measurement this
  any_measurement (kernel_socket this) = kernel.measurement this
  any_measurement (pcap_socket this) = pcap.measurement this

  abbrev pub any_class : SocketClass AnySocket
  any_class = record {
    base_of = any_base;
    connect_to = any_connect;
    write_to = any_write;
    read_from = any_read;
    close_of = any_close;
    measurement = any_measurement;
  }

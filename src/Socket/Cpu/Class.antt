-- ===== src/Socket/Cpu/Class.antt =====
-- The virtual methods of CPUTimingSocket.
use timing_proxy.Base.{ℕ, ok}
use timing_proxy.Os.Calls.{System}
use timing_proxy.Os.Io.{◌>>=◌, pure}
use timing_proxy.Socket.Timing.{SocketClass, connect_socket, close_socket}
use timing_proxy.Socket.Cpu.{CpuTimingSocket, write, read, get_last_measurement}

abbrev pub cpu_class : System → ℕ → SocketClass CpuTimingSocket
cpu_class system fuel = record {
  base_of = CpuTimingSocket.base;
  connect_to = λ this host port.
      connect_socket system this.base host port >>= λ base. pure (record this { base = base });
  write_to = write system fuel;
  read_from = read system;
  close_of = λ this. close_socket system this.base >>= λ base. pure (record this { base = base });
  measurement = λ this. ok (get_last_measurement this);
}

-- ===== src/Proxy/Interface.antt =====
-- TimingProxy::setInterface, on the sockets that createTimingSocket makes.
use timing_proxy.Base.{ℕ, List}
use timing_proxy.Os.Calls.{System}
use timing_proxy.Os.Io.{Io, ◌>>=◌, pure}
use timing_proxy.Pcap.Open.{PcapWrapper}
use timing_proxy.Socket.Any.{AnySocket, set_socket_interface}
use timing_proxy.Proxy.{TimingProxy}

unfoldable pub set_interface :
    System → PcapWrapper → TimingProxy AnySocket → List ℕ → Io (TimingProxy AnySocket)
set_interface system wrapper this interface =
    set_socket_interface system wrapper this.measurement_technique this.proxy_output interface
    >>= λ output. pure (record this { proxy_output = output })

-- ===== src/Socket/Any/Keeps.antt =====
-- The virtual calls on what createTimingSocket makes keep the descriptors as the proxy needs it.
use timing_proxy.Base.{ℕ, ◌≡◌, ℤ, List, Outcome, ok, Bool}
use timing_proxy.Packet.Types.{Inet}
use timing_proxy.Pcap.Open.{PcapWrapper}
use timing_proxy.Os.Calls.{Trace, System}
use timing_proxy.Os.Triples.{carry, Triple, Ends, returned, ended, Ends-after}
use timing_proxy.Socket.Laws.{KeepsFds, Fds, Anything, IsOpen, opened, closed}
use timing_proxy.Socket.Epoll.Descriptors.{EpollAnswers}
use timing_proxy.Socket.Timing.{SocketClass}
use timing_proxy.Socket.Cpu.{CpuTimingSocket}
use timing_proxy.Socket.Cpu.Class.{cpu_class}
use timing_proxy.Socket.Cpu.Keeps.{cpu_class-KeepsFds}
use timing_proxy.Socket.Kernel.{KernelTimingSocket}
use timing_proxy.Socket.Kernel.Keeps.{kernel_class-KeepsFds}
use timing_proxy.Socket.Pcap.{PcapTimingSocket, Capture}
use timing_proxy.Socket.Pcap.Keeps.{pcap_class-KeepsFds}
use timing_proxy.Socket.Any.{
  AnySocket, cpu_socket, kernel_socket, pcap_socket, any_class, kernel_class, pcap_class,
}

-- A result wrapped in the class that it is of.
Ends-wrapped :
    {A B : Type 0} {Q : A → Trace → Type 0} {Q' : B → Trace → Type 0} {E : Trace → Type 0}
    (wrap : A → B) {run : Outcome A × Trace}
    → Ends Q E run
    → ((a : A) (v : Trace) → Q a v → Q' (wrap a) v)
    → Ends Q' E (carry (λ a. (ok (wrap a), run.1)) run.1 run.0)
Ends-wrapped wrap (returned q) keeps = returned (keeps _ _ q)
Ends-wrapped wrap (ended {r = r} {v = v} nil d) keeps = Ends-after _ r v nil d

module _ (cpu : SocketClass CpuTimingSocket) (kernel : SocketClass KernelTimingSocket)
    (pcap : SocketClass PcapTimingSocket) (c : KeepsFds cpu) (k : KeepsFds kernel)
    (p : KeepsFds pcap) where
  open any_class cpu kernel pcap use {base_of, connect_to, write_to, read_from, close_of}

  any_connect-opens :
      (this : AnySocket) (host : List ℕ) (port : ℕ) (fds : List ℤ)
      → Triple
          (Fds fds)
          (connect_to this host port)
          (λ that v. IsOpen (base_of that) × Fds (opened (base_of that) fds) v)
          Anything
  any_connect-opens (cpu_socket s) host port fds w same =
      Ends-wrapped cpu_socket (c.connects s host port fds w same) (λ a v q. q)
  any_connect-opens (kernel_socket s) host port fds w same =
      Ends-wrapped kernel_socket (k.connects s host port fds w same) (λ a v q. q)
  any_connect-opens (pcap_socket s) host port fds w same =
      Ends-wrapped pcap_socket (p.connects s host port fds w same) (λ a v q. q)

  any_write-keeps :
      (this : AnySocket) (bytes : List ℕ) (fds : List ℤ)
      → Triple
          (Fds fds)
          (write_to this bytes)
          (λ that v. (base_of that ≡ base_of this) × Fds fds v)
          (Fds fds)
  any_write-keeps (cpu_socket s) bytes fds w same =
      Ends-wrapped cpu_socket (c.writes s bytes fds w same) (λ a v q. q)
  any_write-keeps (kernel_socket s) bytes fds w same =
      Ends-wrapped kernel_socket (k.writes s bytes fds w same) (λ a v q. q)
  any_write-keeps (pcap_socket s) bytes fds w same =
      Ends-wrapped pcap_socket (p.writes s bytes fds w same) (λ a v q. q)

  any_read-keeps :
      (this : AnySocket) (size : ℕ) (blocking : Bool) (fds : List ℤ)
      → Triple
          (Fds fds)
          (read_from this size blocking)
          (λ r v. (base_of r.0 ≡ base_of this) × Fds fds v)
          (Fds fds)
  any_read-keeps (cpu_socket s) size blocking fds w same =
      Ends-wrapped (λ r. (cpu_socket r.0, r.1)) (c.reads s size blocking fds w same) (λ a v q. q)
  any_read-keeps (kernel_socket s) size blocking fds w same =
      Ends-wrapped (λ r. (kernel_socket r.0, r.1)) (k.reads s size blocking fds w same) (λ a v q. q)
  any_read-keeps (pcap_socket s) size blocking fds w same =
      Ends-wrapped (λ r. (pcap_socket r.0, r.1)) (p.reads s size blocking fds w same) (λ a v q. q)

  any_close-closes :
      (this : AnySocket) (fds : List ℤ)
      → IsOpen (base_of this)
      → Triple (Fds fds) (close_of this) (λ that v. Fds (closed (base_of this) fds) v) Anything
  any_close-closes (cpu_socket s) fds is w same =
      Ends-wrapped cpu_socket (c.closes s fds is w same) (λ a v q. q)
  any_close-closes (kernel_socket s) fds is w same =
      Ends-wrapped kernel_socket (k.closes s fds is w same) (λ a v q. q)
  any_close-closes (pcap_socket s) fds is w same =
      Ends-wrapped pcap_socket (p.closes s fds is w same) (λ a v q. q)

-- Whichever of the three classes a timing socket is of, if epoll_create1 answers -1 or a descriptor then
-- connect opens the socket's two descriptors, close closes them, and read and write, whether they
-- return or not, leave open what was open.
pub any_class-KeepsFds :
    (inet : Inet) (system : System) (fuel : ℕ) (capture : Capture) (wrapper : PcapWrapper)
    → EpollAnswers system
    → KeepsFds (
        any_class
          (cpu_class system fuel)
          (kernel_class inet system fuel)
          (pcap_class inet system fuel capture wrapper))
any_class-KeepsFds inet system fuel capture wrapper answers =
    let cpu = cpu_class system fuel in
    let kernel = kernel_class inet system fuel in
    let pcap = pcap_class inet system fuel capture wrapper in
    let c = cpu_class-KeepsFds system answers fuel in
    let k = kernel_class-KeepsFds inet system answers fuel in
    let p = pcap_class-KeepsFds inet system capture answers fuel wrapper in
    record {
      connects = any_connect-opens cpu kernel pcap c k p;
      writes = any_write-keeps cpu kernel pcap c k p;
      reads = any_read-keeps cpu kernel pcap c k p;
      closes = any_close-closes cpu kernel pcap c k p;
    }

-- ===== src/Proxy/Kinds.antt =====
-- TimingProxy::setInterface and the class of the socket that createTimingSocket has made.
use timing_proxy.Base.{
  ℕ, ◌≡◌, refl, pos, List, [], Outcome, ok, throws, terminate, fault, out_of_fuel,
}
use timing_proxy.Os.Calls.{Trace, System}
use timing_proxy.Os.Io.{Io, ◌>>=◌, pure, after}
use timing_proxy.Pcap.Open.{PcapWrapper}
use timing_proxy.Socket.Server.{ServerSocket, bind}
use timing_proxy.Socket.Cpu
use timing_proxy.Socket.Kernel.{set_device}
use timing_proxy.Socket.Pcap.{init_pcap}
use timing_proxy.Socket.Timing.{KindOfSocket, cpu_kind, kernel_kind, pcap_kind}
use timing_proxy.Socket.Any.{
  Blank, create_timing_socket, set_socket_interface, AnySocket, cpu_socket, kernel_socket,
  pcap_socket,
}
use timing_proxy.Proxy.{TimingProxy, new_timing_proxy}
use timing_proxy.Proxy.Interface.{set_interface}

-- The interface for an object, by its own class.
abbrev pub set_own_interface : System → PcapWrapper → AnySocket → List ℕ → Io AnySocket
set_own_interface system wrapper (cpu_socket this) interface = pure (cpu_socket this)
set_own_interface system wrapper (kernel_socket this) interface =
    pure (kernel_socket (set_device this interface))
set_own_interface system wrapper (pcap_socket this) interface =
    init_pcap system wrapper this interface >>= λ ready. pure (pcap_socket ready)

-- The same for the socket of a proxy.
abbrev pub set_by_class :
    System → PcapWrapper → TimingProxy AnySocket → List ℕ → Io (TimingProxy AnySocket)
set_by_class system wrapper this interface =
    set_own_interface system wrapper this.proxy_output interface >>= λ output.
    pure (record this { proxy_output = output })

-- Two continuations that agree after the second part of a run agree after the whole run.
after_same :
    {A B C : Type 0} (next : A → Io B) (first second : B → Io C) (r : Outcome A) (v : Trace)
    → ((a : A) (u : Trace)
        → after first (next a u).1 (next a u).0 ≡ after second (next a u).1 (next a u).0)
    → let made = after next v r in after first made.1 made.0 ≡ after second made.1 made.0
after_same next first second (ok a) v same = same a v
after_same next first second (throws e) v same = refl
after_same next first second terminate v same = refl
after_same next first second fault v same = refl
after_same next first second out_of_fuel v same = refl

abbrev proxy_of : KindOfSocket → AnySocket → ServerSocket → ServerSocket → TimingProxy AnySocket
proxy_of kind output control proxy_input = record {
  proxy_input = proxy_input;
  control = control;
  proxy_output = output;
  connect_host = [];
  connect_port = pos 0;
  measurement_technique = kind;
}

module _ (system : System) (blank : Blank) (unset : ServerSocket) (wrapper : PcapWrapper)
    (listen_port control_port : ℕ) where
  -- The proxy as the constructor makes it from a socket and the kind.
  abbrev pub proxy_with : KindOfSocket → AnySocket → Io (TimingProxy AnySocket)
  proxy_with kind output = new_timing_proxy system unset unset output listen_port control_port kind

  proxy_with-same :
      (kind : KindOfSocket) (output : AnySocket)
      (f g : TimingProxy AnySocket → Io (TimingProxy AnySocket)) (w : Trace)
      → ((control proxy_input : ServerSocket) (v : Trace)
          → f (proxy_of kind output control proxy_input) v
            ≡ g (proxy_of kind output control proxy_input) v)
      → (proxy_with kind output >>= f) w ≡ (proxy_with kind output >>= g) w
  unfolding new_timing_proxy
  proxy_with-same kind output f g w same =
      let first = bind system unset control_port w in
      after_same (λ c. bind system unset listen_port >>= λ i. pure (proxy_of kind output c i)) f g
        first.0 first.1
        (λ c u.
          let second = bind system unset listen_port u in
          after_same (λ i. pure (proxy_of kind output c i)) f g second.0 second.1 (same c))

  -- When a proxy is made from a kind of socket, as main does it, its setInterface sets the interface of
  -- its socket by the class of the object that createTimingSocket made: the stored technique and the
  -- class belong together, so that no cast of setInterface is to another class.
  pub new_timing_proxy-set_interface :
      (kind : KindOfSocket) (interface : List ℕ) (w : Trace)
      → (create_timing_socket system blank kind >>= λ output.
            proxy_with kind output >>= λ proxy. set_interface system wrapper proxy interface)
          w
        ≡ (create_timing_socket system blank kind >>= λ output.
              proxy_with kind output >>= λ proxy. set_by_class system wrapper proxy interface)
            w
  unfolding create_timing_socket set_interface set_socket_interface
  new_timing_proxy-set_interface cpu_kind interface w =
      let init = Cpu.init system blank.base w in
      let by_kind =
        λ (proxy : TimingProxy AnySocket). set_interface system wrapper proxy interface in
      let by_class =
        λ (proxy : TimingProxy AnySocket). set_by_class system wrapper proxy interface in
      after_same (λ s. pure (cpu_socket s)) (λ made. proxy_with cpu_kind made >>= by_kind)
        (λ made. proxy_with cpu_kind made >>= by_class) init.0 init.1
        (λ s u. proxy_with-same cpu_kind (cpu_socket s) by_kind by_class u (λ c i v. refl))
  new_timing_proxy-set_interface kernel_kind interface w =
      let by_kind =
        λ (proxy : TimingProxy AnySocket). set_interface system wrapper proxy interface in
      let by_class =
        λ (proxy : TimingProxy AnySocket). set_by_class system wrapper proxy interface in
      proxy_with-same kernel_kind (kernel_socket blank.kernel) by_kind by_class w (λ c i v. refl)
  new_timing_proxy-set_interface pcap_kind interface w =
      let by_kind =
        λ (proxy : TimingProxy AnySocket). set_interface system wrapper proxy interface in
      let by_class =
        λ (proxy : TimingProxy AnySocket). set_by_class system wrapper proxy interface in
      proxy_with-same pcap_kind (pcap_socket blank.pcap) by_kind by_class w (λ c i v. refl)

-- ===== src/Proxy/Forward.antt =====
-- TimingProxy::tryForwardInput: what the server receives of what the client sent.
use timing_proxy.Base.{
  ℕ, ◌≤◌, ◌≡◌, refl, arith, pos, is_negative, same_int, to_size, false, List, ◌∷◌, length, take,
  length-take,
}
use timing_proxy.Os.Calls.{Trace, System, recv}
use timing_proxy.Os.Io.{pure}
use timing_proxy.Socket.Server
use timing_proxy.Socket.Server.{ServerSocket}
use timing_proxy.Socket.Timing.{SocketClass}
use timing_proxy.Socket.Stream.{SendsSome, Delivered, Delivered-after, Delivered-extend}
use timing_proxy.Socket.Cpu.Class.{cpu_class}
use timing_proxy.Socket.Cpu.Writes.{write-Sent}
use timing_proxy.Proxy.{TimingProxy, bufsize, try_forward_input}

-- What the proxy needs of a timing socket: `write` sends all that fits in the proxy's buffer.
abbrev pub WritesBuffer : {S : Type 0} → SocketClass S → Type 0
WritesBuffer {S = S} class =
    (this : S) (bytes : List ℕ) (w : Trace)
    → length bytes ≤ bufsize
    → Delivered (class.base_of this).sock w bytes (class.write_to this bytes w).0
        (class.write_to this bytes w).1

-- CPUTimingSocket is such a socket.
pub cpu_class-WritesBuffer :
    (system : System) → SendsSome system → WritesBuffer (cpu_class system 2501)
cpu_class-WritesBuffer system sends this bytes w fits =
    write-Sent system sends 2501 this bytes w (omega arith)

module _ {S : Type 0} (system : System) (class : SocketClass S) (writes : WritesBuffer class)
    (fuel : ℕ) where
  -- If recv gives bytes of the client, at most as many as were asked for, tryForwardInput sends them on
  -- to the server, all of them once and in order if it returns and the first ones if it throws, for
  -- any timing socket whose write sends all that fits in the buffer.
  pub try_forward_input-Delivered :
      (this : TimingProxy S) (w : Trace)
      → let reply = system w (recv this.proxy_input.client_sock bufsize false) in
        is_negative reply.value ≡ false
        → same_int reply.value (pos 0) ≡ false
        → to_size reply.value ≤ bufsize
        → let run = try_forward_input system class fuel this w in
          Delivered
            (class.base_of this.proxy_output).sock
            w
            (take (to_size reply.value) reply.bytes)
            run.0
            run.1
  unfolding try_forward_input Server.read
  try_forward_input-Delivered this w fine some_bytes fits =
      let sock = (class.base_of this.proxy_output).sock in
      let ask = recv this.proxy_input.client_sock bufsize false in
      let reply = system w ask in
      let bytes = take (to_size reply.value) reply.bytes in
      let short : length bytes ≤ bufsize =
        omega (arith, length-take (to_size reply.value) reply.bytes) in
      rw (fine, some_bytes, fine)
        (Delivered-after sock w bytes (λ output. pure (record this { proxy_output = output }))
          (Delivered-extend sock w bytes 0 (omega arith) refl
            (writes this.proxy_output bytes ((ask, reply) ∷ w) short))
          (λ output v. (_, v, refl, refl)))

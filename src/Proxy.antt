-- ===== src/Proxy.antt =====
-- src/TimingProxy/TimingProxy.cpp: the proxy between a measuring client and a server.
pub mod Text
pub mod Lines
pub mod Forward
pub mod Target
pub mod Keeps
pub mod Descriptors
pub mod Answers
pub mod Ending
pub mod Interface
pub mod Kinds
mod Tests
use timing_proxy.Base.{
  ℕ, zero, suc, ◌+◌, ◌-◌, ◌*◌, ◌/◌, ◌%◌, ◌^◌, ℤ, pos, negsuc, minus_one, is_negative, same_int,
  to_size, Bool, true, false, not, ◌&&◌, ◌||◌, List, [], ◌∷◌, ◌++◌, Option, none, some, take,
  Outcome, ok, out_of_fuel, runtime_error, ltb, ◌==◌, if◌then◌else◌,
}
use timing_proxy.Os.Calls.{System}
use timing_proxy.Os.Io.{Io, ◌>>=◌, ◌>>◌, pure, end, io_throw_if, catch_runtime}
use timing_proxy.Socket.Server
use timing_proxy.Socket.Server.{ServerSocket, bind, listen, accept, close_client, peer_closed}
use timing_proxy.Socket.Timing.{TimingSocket, KindOfSocket, SocketClass, timing_peer_closed}
use timing_proxy.Proxy.Text.{c_string, find_line, stoi, to_uint16}

abbrev pub bufsize : ℕ
bufsize = 2500

pub record TimingProxy (S : Type 0) : Type 0 where
  pub proxy_input : ServerSocket
  pub control : ServerSocket
  pub proxy_output : S
  pub connect_host : List ℕ
  pub connect_port : ℤ
  pub measurement_technique : KindOfSocket

-- The `if` of getline's loop.
abbrev pub or_read_on : Option (List ℕ × List ℕ) → Io (List ℕ × List ℕ) → Io (List ℕ × List ℕ)
or_read_on (some split) again w = (ok split, w)
or_read_on none again w = again w

module _ (system : System) where
  -- The `while`, with the value of `str` before it.
  unfoldable pub getline : ℕ → ServerSocket → List ℕ → Io (List ℕ × List ℕ)
  getline zero control str = end out_of_fuel
  getline (suc fuel) control str = or_read_on (find_line str) (
      Server.read system control 1024 true >>= λ r.
      getline fuel control (str ++ c_string (take (to_size r.0) r.1)))

module _ {S : Type 0} (system : System) where
  -- The constructor, with the members as they are before and the socket that createTimingSocket made.
  -- `control` is bound first.
  unfoldable pub new_timing_proxy :
      ServerSocket → ServerSocket → S → ℕ → ℕ → KindOfSocket → Io (TimingProxy S)
  new_timing_proxy proxy_input control proxy_output listen_port control_port technique = do
    control' ← bind system control control_port
    proxy_input' ← bind system proxy_input listen_port
    pure (record {
      proxy_input = proxy_input';
      control = control';
      proxy_output = proxy_output;
      connect_host = [];
      connect_port = pos 0;
      measurement_technique = technique;
    })

module _ {S : Type 0} (system : System) (class : SocketClass S) (fuel : ℕ) where
  unfoldable pub get_proxy_target : TimingProxy S → Io (TimingProxy S)
  get_proxy_target this = do
    first ← getline system fuel this.control []
    second ← getline system fuel this.control first.1
    port ← end (stoi second.0)
    pure (record this { connect_host = first.0; connect_port = port })

  unfoldable pub try_forward_input : TimingProxy S → Io (TimingProxy S)
  try_forward_input this = do
    r ← Server.read system this.proxy_input bufsize false
    io_throw_if (same_int r.0 (pos 0)) (runtime_error "Proxy input closed connection")
    if is_negative r.0
        then pure this
        else (class.write_to this.proxy_output (take (to_size r.0) r.1) >>= λ output.
            pure (record this { proxy_output = output }))

  -- The `||` of the loop: later sockets are asked only if the earlier ones are still there.
  unfoldable pub any_peer_closed : TimingProxy S → Io Bool
  any_peer_closed this = do
    input ← peer_closed system this.proxy_input
    if input
        then pure true
        else (peer_closed system this.control >>= λ control.
            if control
            then pure true
            else timing_peer_closed system (class.base_of this.proxy_output))

-- `native_to_big` is the function of Boost: the bytes that a number of 64 bits has in memory after it.
module _ {S : Type 0} (system : System) (class : SocketClass S) (fuel : ℕ)
    (native_to_big : ℕ → List ℕ) where
  unfoldable pub try_forward_output : TimingProxy S → Io (TimingProxy S)
  try_forward_output this = do
    r ← class.read_from this.proxy_output bufsize false
    let next = record this { proxy_output = r.0 }
    io_throw_if (same_int r.1.0 (pos 0)) (runtime_error "Proxy output closed connection")
    if is_negative r.1.0
        then pure next
        else (Server.write system fuel this.proxy_input (take (to_size r.1.0) r.1.1) >>= λ _.
            end (class.measurement r.0) >>= λ tstamp.
            Server.write system fuel this.control (native_to_big tstamp) >>= λ _. pure next)

  -- The `try`, and whether the connection is still established after it. What a method that throws
  -- has changed in the object is not kept.
  unfoldable pub forward_both : TimingProxy S → Io (TimingProxy S × Bool)
  forward_both this = catch_runtime (try_forward_input system class fuel this) >>= λ sent.
      elim sent [
        | none ↦ pure (this, false)
        | some this₁ ↦ catch_runtime (try_forward_output this₁) >>= λ answered. elim answered [
          | none ↦ pure (this₁, false)
          | some this₂ ↦ pure (this₂, true)
        ]
      ]

  -- The `while (connection_established)`.
  unfoldable pub forward_loop : ℕ → TimingProxy S → Io (TimingProxy S)
  forward_loop zero this = end out_of_fuel
  forward_loop (suc rounds) this = do
    r ← forward_both this
    gone ← any_peer_closed system class fuel r.0
    if r.1 && not gone then forward_loop rounds r.0 else pure r.0

  unfoldable pub handle_client : ℕ → TimingProxy S → Io (TimingProxy S)
  handle_client rounds this = do
    control ← accept system this.control
    this₁ ← get_proxy_target system class fuel (record this { control = control })
    input ← accept system this₁.proxy_input
    output ← class.connect_to this₁.proxy_output this₁.connect_host (to_uint16 this₁.connect_port)
    this₂ ← forward_loop rounds (record this₁ { proxy_input = input; proxy_output = output })
    input' ← close_client system this₂.proxy_input
    control' ← close_client system this₂.control
    output' ← class.close_of this₂.proxy_output
    pure (record this₂ { proxy_input = input'; control = control'; proxy_output = output' })

  -- `run`, for as many clients as `clients`.
  unfoldable pub serve : ℕ → ℕ → TimingProxy S → Io (TimingProxy S)
  serve rounds zero this = end out_of_fuel
  serve rounds (suc clients) this = handle_client rounds this >>= λ next. serve rounds clients next

  unfoldable pub run : ℕ → ℕ → TimingProxy S → Io (TimingProxy S)
  run rounds clients this = do
    listen system this.control
    listen system this.proxy_input
    serve rounds clients this

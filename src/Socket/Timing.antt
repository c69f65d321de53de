-- ===== src/Socket/Timing.antt =====
-- TimingSocket.cpp: the client side of the proxy.
pub mod Writes
pub mod Descriptors
pub mod Keeps
use timing_proxy.Base.{
  ℕ, zero, suc, ◌-◌, ℤ, pos, minus_one, is_negative, same_int, to_size, Bool, true, false, not,
  ◌&&◌, List, [], ◌∷◌, length, drop, Outcome, ok, terminate, throws, runtime_error, ◌==◌,
  if◌then◌else◌,
}
use timing_proxy.Os.Calls.{
  Call, System, AddrInfo, getaddrinfo, freeaddrinfo, socket, connect, close, send, recv, sleep_ms,
}
use timing_proxy.Os.Io.{Io, ◌>>=◌, ◌>>◌, pure, end, call, io_throw_if}
use timing_proxy.Socket.Epoll.{enable_epoll_with_events, socket_peer_closed, peer_events}

pub data SockState : Type 0 where
  uninitialized established closed : SockState

abbrev pub is_established : SockState → Bool
is_established established = true
is_established _ = false

pub record TimingSocket : Type 0 where
  pub state : SockState
  pub sock : ℤ
  pub epfd : ℤ
  pub host : List ℕ
  pub port : ℕ

pub data KindOfSocket : Type 0 where
  cpu_kind kernel_kind pcap_kind : KindOfSocket

-- What the proxy uses of a TimingSocket: the virtual methods, on the objects of a class.
pub record SocketClass (S : Type 0) : Type 0 where
  pub base_of : S → TimingSocket
  pub connect_to : S → List ℕ → ℕ → Io S
  pub write_to : S → List ℕ → Io S
  pub read_from : S → ℕ → Bool → Io (S × (ℤ × List ℕ))
  pub close_of : S → Io S
  pub measurement : S → Outcome ℕ

module _ (system : System) where
  unfoldable pub retrieve_connection_candidates : List ℕ → ℕ → Io (List AddrInfo)
  retrieve_connection_candidates host port = do
    found ← call system (getaddrinfo host port)
    io_throw_if (not (same_int found.value (pos 0)))
        (runtime_error "Unable retrieve connection candidates for host")
    pure found.candidates

  -- The inner `while`, for a socket that is not connected and the number of attempts left.
  unfoldable pub retry : ℕ → AddrInfo → Io ℤ
  retry zero res = pure minus_one
  retry (suc attempts) res = do
    call system (sleep_ms 5)
    made ← call system (socket res.ai_family res.ai_socktype res.ai_protocol)
    reached ← call system (connect made.value res.ai_addr)
    if is_negative reached.value
        then (call system (close made.value) >> retry attempts res)
        else if is_negative made.value
        then retry attempts res
        else pure made.value

  -- One round of the `for`: the socket, or a negative number.
  unfoldable pub try_candidate : AddrInfo → Io ℤ
  try_candidate res = do
    made ← call system (socket res.ai_family res.ai_socktype res.ai_protocol)
    if is_negative made.value
        then pure made.value
        else (call system (connect made.value res.ai_addr) >>= λ reached.
            if is_negative reached.value
            then (call system (close made.value) >> retry 100 res)
            else pure made.value)

  -- The `for`, with the value of `sock` before it.
  unfoldable pub try_candidates : ℤ → List AddrInfo → Io ℤ
  try_candidates sock [] = pure sock
  try_candidates sock (res ∷ more) = do
    tried ← try_candidate res
    if is_negative tried then try_candidates tried more else pure tried

  unfoldable pub connect_socket : TimingSocket → List ℕ → ℕ → Io TimingSocket
  connect_socket this host port = do
    candidates ← retrieve_connection_candidates host port
    sock ← try_candidates minus_one candidates
    io_throw_if (is_negative sock) (runtime_error "Unable to open socket for host")
    epfd ← enable_epoll_with_events system peer_events sock
    call system freeaddrinfo
    pure (record { state = established; sock = sock; epfd = epfd; host = host; port = port })

  -- `write` is virtual: what is left after a short send goes to the method of the object's class,
  -- `again`. The object is any type with a TimingSocket in it.
  unfoldable pub write_base :
      {S : Type 0} → (S → TimingSocket) → (S → List ℕ → Io S) → S → List ℕ → Io S
  write_base base again this bytes = do
    io_throw_if (not (is_established (base this).state))
        (runtime_error "Socket is not ready for sending")
    sent ← call system (send (base this).sock bytes)
    io_throw_if (is_negative sent.value) (runtime_error "Unable to send data.")
    if to_size sent.value == length bytes
        then pure this
        else again this (drop (to_size sent.value) bytes)

  unfoldable pub read_base : TimingSocket → ℕ → Bool → Io (ℤ × List ℕ)
  read_base this size blocking = do
    io_throw_if (not (is_established this.state))
        (runtime_error "Socket is not ready for recieving")
    received ← call system (recv this.sock size blocking)
    io_throw_if (is_negative received.value && blocking) (runtime_error "Unable to recieve data.")
    pure (received.value, received.bytes)

  unfoldable pub timing_peer_closed : TimingSocket → Io Bool
  timing_peer_closed this = socket_peer_closed system this.epfd

  unfoldable pub close_socket : TimingSocket → Io TimingSocket
  close_socket this = do
    call system (close this.sock)
    call system (close this.epfd)
    pure (record this { state = closed })

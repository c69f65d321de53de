-- ===== src/Socket/Server.antt =====
-- ServerSocket.cpp: the sockets on which the proxy's client connects.
pub mod Writes
pub mod Keeps
use timing_proxy.Base.{
  ℕ, zero, suc, ℤ, pos, is_negative, same_int, to_size, Bool, true, false, not, ◌&&◌, List, length,
  drop, out_of_fuel, runtime_error, ◌==◌, if◌then◌else◌,
}
use timing_proxy.Os.Calls.{
  Call, System, socket, set_v6only, set_reuseaddr, bind_port, listen_on, accept_from, close, send,
  recv,
}
use timing_proxy.Os.Io.{Io, ◌>>=◌, ◌>>◌, pure, end, call, io_throw_if}
use timing_proxy.Socket.Epoll.{enable_epoll_with_events, socket_peer_closed, peer_events}

pub record ServerSocket : Type 0 where
  pub port : ℕ
  pub sock : ℤ
  pub client_sock : ℤ
  pub epfd : ℤ
  pub has_client : Bool

abbrev pub af_inet6 : ℕ
af_inet6 = 10

abbrev pub sock_stream : ℕ
sock_stream = 1

module _ (system : System) where
  unfoldable pub bind : ServerSocket → ℕ → Io ServerSocket
  bind this port = do
    made ← call system (socket af_inet6 sock_stream 0)
    io_throw_if (is_negative made.value) (runtime_error "ServerSocket: Unable to open socket.")
    both ← call system (set_v6only made.value 0)
    io_throw_if (not (same_int both.value (pos 0)))
        (runtime_error "ServerSocket: Can't listen on ipv4 and ipv6.")
    reuse ← call system (set_reuseaddr made.value 1)
    io_throw_if (not (same_int reuse.value (pos 0)))
        (runtime_error "ServerSocket: Can't set SO_REUSEADDR.")
    bound ← call system (bind_port made.value port)
    io_throw_if (not (same_int bound.value (pos 0)))
        (runtime_error "ServerSocket: Unable to bind socket.")
    pure (record this { port = port; sock = made.value })

  unfoldable pub listen : ServerSocket → Io (Unit {0})
  listen this = do
    ret ← call system (listen_on this.sock 2)
    io_throw_if (not (same_int ret.value (pos 0)))
        (runtime_error "ServerSocket: Unable to listen on socket.")

  unfoldable pub accept : ServerSocket → Io ServerSocket
  accept this = do
    client ← call system (accept_from this.sock)
    io_throw_if (is_negative client.value)
        (runtime_error "ServerSocket: Unable to accept client socket.")
    epfd ← enable_epoll_with_events system peer_events this.sock
    pure (record this { client_sock = client.value; epfd = epfd; has_client = true })

  unfoldable pub close_client : ServerSocket → Io ServerSocket
  close_client this = do
    call system (close this.client_sock)
    call system (close this.epfd)
    pure (record this { has_client = false })

  unfoldable pub close_server : ServerSocket → Io (Unit {0})
  close_server this = do call system (close this.sock); pure tt

  -- The destructor.
  unfoldable pub destroy : ServerSocket → Io (Unit {0})
  destroy this =
      if this.has_client
      then (close_client this >>= λ closed. close_server closed)
      else close_server this

  unfoldable pub read : ServerSocket → ℕ → Bool → Io (ℤ × List ℕ)
  read this size blocking = do
    received ← call system (recv this.client_sock size blocking)
    io_throw_if (is_negative received.value && blocking) (runtime_error "Unable to recieve data.")
    pure (received.value, received.bytes)

  -- A short send is followed by a call for the rest, whose result is dropped.
  unfoldable pub write : ℕ → ServerSocket → List ℕ → Io ℤ
  write zero this bytes = end out_of_fuel
  write (suc fuel) this bytes = do
    sent ← call system (send this.client_sock bytes)
    io_throw_if (is_negative sent.value) (runtime_error "Unable to send data.")
    if to_size sent.value == length bytes
        then pure sent.value
        else (write fuel this (drop (to_size sent.value) bytes) >> pure sent.value)

  unfoldable pub peer_closed : ServerSocket → Io Bool
  peer_closed this = socket_peer_closed system this.epfd

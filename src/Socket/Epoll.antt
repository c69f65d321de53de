-- ===== src/Socket/Epoll.antt =====
-- Socket/Socket.cpp.
pub mod Descriptors
use Prim.Native.Nat.{bit_and}
use timing_proxy.Base.{
  ℕ, ℤ, pos, minus_one, same_int, Bool, false, not, terminate, ◌==◌, if◌then◌else◌,
}
use timing_proxy.Os.Calls.{System, epoll_create1, epoll_ctl_add, epoll_wait, close}
use timing_proxy.Os.Io.{Io, ◌>>=◌, ◌>>◌, pure, end, call, io_terminate_if}

-- EPOLLERR | EPOLLHUP | EPOLLRDHUP
abbrev pub peer_events : ℕ
peer_events = 0x2018

module _ (system : System) where
  -- The source gives epoll_ctl the descriptor 0; `sock` is only the data that an event carries.
  unfoldable pub enable_epoll_with_events : ℕ → ℤ → Io ℤ
  enable_epoll_with_events events sock = do
    created ← call system epoll_create1
    io_terminate_if (same_int created.value minus_one)
    added ← call system (epoll_ctl_add created.value (pos 0) events sock)
    if same_int added.value (pos 0)
        then pure created.value
        else (call system (close created.value) >> end terminate)

  unfoldable pub socket_peer_closed : ℤ → Io Bool
  socket_peer_closed epfd = do
    res ← call system (epoll_wait epfd)
    io_terminate_if (same_int res.value minus_one)
    if same_int res.value (pos 0)
        then pure false
        else pure (not (bit_and res.events peer_events == 0))

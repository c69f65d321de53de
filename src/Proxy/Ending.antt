-- ===== src/Proxy/Ending.antt =====
-- How the loop of handle_client in TimingProxy.cpp ends.
use timing_proxy.Base.{
  List, negsuc, is_negative, throws, runtime_error, ℕ, suc, ◌≡◌, refl, not, ◌==◌, ℤ, pos, minus_one,
  same_int, Bool, true, false, inl, inr, Bool-cases, ok,
}
use timing_proxy.Os.Calls.{Trace, System, recv, epoll_wait}
use Prim.Native.Nat.{bit_and}
use timing_proxy.Socket.Epoll.{peer_events, socket_peer_closed}
use timing_proxy.Socket.Server
use timing_proxy.Socket.Server.{peer_closed}
use timing_proxy.Socket.Timing.{SocketClass, timing_peer_closed}
use timing_proxy.Os.Triples.{with_result}
use timing_proxy.Proxy.{
  TimingProxy, bufsize, try_forward_input, forward_both, any_peer_closed, forward_loop,
}

-- The system answers every question about a descriptor's events.
abbrev pub Waits : System → Type 0
Waits system =
    (w : Trace) (epfd : ℤ) → same_int (system w (epoll_wait epfd)).value minus_one ≡ false

pub zero-is_not_negative : (z : ℤ) → same_int z (pos 0) ≡ true → is_negative z ≡ false
zero-is_not_negative (pos n) zero = refl
zero-is_not_negative (negsuc n) zero = cc

module _ (system : System) (waits : Waits system) where
  socket_peer_closed-answers :
      (epfd : ℤ) (w : Trace) → (gone : Bool) × ((socket_peer_closed system epfd w).0 ≡ ok gone)
  unfolding socket_peer_closed
  socket_peer_closed-answers epfd w =
      elim (Bool-cases (same_int (system w (epoll_wait epfd)).value (pos 0))) [
        | inl quiet ↦ (false, rw (waits w epfd, quiet) refl)
        | inr event ↦ (
          not (bit_and (system w (epoll_wait epfd)).events peer_events == 0),
          rw (waits w epfd, event) refl,
        )
      ]

module _ {S : Type 0} (system : System) (class : SocketClass S) (fuel : ℕ)
    (waits : Waits system) where
  any_peer_closed-answers :
      (this : TimingProxy S) (w : Trace)
      → (gone : Bool) × ((any_peer_closed system class fuel this w).0 ≡ ok gone)
  unfolding any_peer_closed peer_closed timing_peer_closed
  any_peer_closed-answers this w =
      let input = socket_peer_closed system this.proxy_input.epfd w in
      let control = socket_peer_closed system this.control.epfd input.1 in
      let first = socket_peer_closed-answers system waits this.proxy_input.epfd w in
      let second = socket_peer_closed-answers system waits this.control.epfd input.1 in
      let third =
        socket_peer_closed-answers system waits (class.base_of this.proxy_output).epfd control.1 in
      elim (Bool-cases first.0) [
        | inl here ↦ (true, rw (with_result input first.1, here) refl)
        | inr later ↦ elim (Bool-cases second.0) [
          | inl here ↦
              (true, rw (with_result input first.1, later, with_result control second.1, here) refl)
          | inr last ↦ (
            third.0,
            rw (with_result input first.1, later, with_result control second.1, last) third.1,
          )
        ]
      ]

  try_forward_input-closed :
      (this : TimingProxy S) (w : Trace)
      → same_int (system w (recv this.proxy_input.client_sock bufsize false)).value (pos 0) ≡ true
      → (try_forward_input system class fuel this w).0
        ≡ throws (runtime_error "Proxy input closed connection")
  unfolding try_forward_input Server.read
  try_forward_input-closed this w closed =
      let value = (system w (recv this.proxy_input.client_sock bufsize false)).value in
      rw (zero-is_not_negative value closed, closed) refl

  forward_both-closed :
      (native_to_big : ℕ → List ℕ) (this : TimingProxy S) (w : Trace)
      → same_int (system w (recv this.proxy_input.client_sock bufsize false)).value (pos 0) ≡ true
      → (forward_both system class fuel native_to_big this w).0 ≡ ok (this, false)
  unfolding forward_both
  forward_both-closed native_to_big this w closed =
      rw
        (with_result (try_forward_input system class fuel this w)
          (try_forward_input-closed this w closed))
        refl

  -- If every epoll_wait answers and recv on the proxy's input gives 0, by which the client has closed,
  -- then the loop of handleClient returns in that round, with the proxy as it was.
  pub forward_loop-closed :
      (native_to_big : ℕ → List ℕ) (rounds : ℕ) (this : TimingProxy S) (w : Trace)
      → same_int (system w (recv this.proxy_input.client_sock bufsize false)).value (pos 0) ≡ true
      → (forward_loop system class fuel native_to_big (suc rounds) this w).0 ≡ ok this
  unfolding forward_loop
  forward_loop-closed native_to_big rounds this w closed =
      let both = forward_both system class fuel native_to_big this w in
      let gone = any_peer_closed-answers this both.1 in
      rw
        (
          with_result both (forward_both-closed native_to_big this w closed),
          with_result (any_peer_closed system class fuel this both.1) gone.1,
        )
        refl

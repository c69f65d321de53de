-- ===== src/Socket/Epoll/Descriptors.antt =====
-- enableEpollWithEvents and socketPeerClosed of Socket/Socket.cpp: the descriptors that they open.
use timing_proxy.Base.{
  ℕ, ◌≡◌, refl, ℤ, pos, minus_one, is_negative, same_int, false, ◌∷◌, inl, inr, List, Bool-cases,
}
use timing_proxy.Os.Calls.{Trace, System, epoll_create1, epoll_ctl_add, epoll_wait}
use timing_proxy.Os.Triples.{Triple, returned, ended}
use timing_proxy.Socket.Laws.{Fds, Anything}
use timing_proxy.Socket.Epoll.{enable_epoll_with_events, socket_peer_closed}

-- What epoll_create1(2) says of its result: -1, or a descriptor.
abbrev pub EpollAnswers : System → Type 0
EpollAnswers system =
    (w : Trace)
    → same_int (system w epoll_create1).value minus_one ≡ false
    → is_negative (system w epoll_create1).value ≡ false

module _ (system : System) where
  pub enable_epoll-opens :
      EpollAnswers system
      → (events : ℕ) (sock : ℤ) (fds : List ℤ)
      → Triple
          (Fds fds)
          (enable_epoll_with_events system events sock)
          (λ epfd v. (is_negative epfd ≡ false) × Fds (epfd ∷ fds) v)
          Anything
  unfolding enable_epoll_with_events
  enable_epoll-opens answers events sock fds w same =
      let created = system w epoll_create1 in
      let added =
        system ((epoll_create1, created) ∷ w) (epoll_ctl_add created.value (pos 0) events sock) in
      elim (Bool-cases (same_int created.value minus_one)) [
        | inl failed ↦ rw failed (ended refl tt)
        | inr fine ↦ elim (Bool-cases (same_int added.value (pos 0))) [
          | inl good ↦ rw (fine, good) (returned (answers w fine, rw (fine, same) refl))
          | inr bad ↦ rw (fine, bad) (ended refl tt)
        ]
      ]

  pub peer_closed-keeps :
      (epfd : ℤ) (fds : List ℤ)
      → Triple (Fds fds) (socket_peer_closed system epfd) (λ _. Fds fds) (Fds fds)
  unfolding socket_peer_closed
  peer_closed-keeps epfd fds w same =
      let res = system w (epoll_wait epfd) in
      elim (Bool-cases (same_int res.value minus_one)) [
        | inl failed ↦ rw failed (ended refl same)
        | inr fine ↦ elim (Bool-cases (same_int res.value (pos 0))) [
          | inl quiet ↦ rw (fine, quiet) (returned same)
          | inr event ↦ rw (fine, event) (returned same)
        ]
      ]

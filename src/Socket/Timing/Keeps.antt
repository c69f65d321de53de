-- ===== src/Socket/Timing/Keeps.antt =====
-- The methods of TimingSocket and the descriptors that are open.
use timing_proxy.Base.{
  ℕ, ◌≡◌, refl, ap, ◌∙◌, ℤ, pos, minus_one, is_negative, same_int, to_size, Bool, false, ◌&&◌, inl,
  inr, List, ◌∷◌, length, drop, Outcome, ◌==◌, Bool-cases,
}
use timing_proxy.Os.Calls.{Trace, System, getaddrinfo, send, recv}
use timing_proxy.Os.Io.{Io}
use timing_proxy.Os.Descriptors.{open_fds}
use timing_proxy.Os.Triples.{Triple, Ends, returned, ended, Ends-cases, Ends-after}
use timing_proxy.Socket.Epoll.{peer_events}
use timing_proxy.Socket.Epoll.Descriptors.{EpollAnswers, enable_epoll-opens}
use timing_proxy.Socket.Laws.{Fds, Anything, IsOpen, opened, closed}
use timing_proxy.Socket.Timing.{
  is_established, TimingSocket, retrieve_connection_candidates, connect_socket, write_base,
  read_base, close_socket,
}
use timing_proxy.Socket.Timing.Descriptors.{Search, reached, missed, try_candidates-Search}

module _ (system : System) where
  Search-Ends :
      {w : Trace} (fds : List ℤ) {run : Outcome ℤ × Trace}
      → open_fds w ≡ fds
      → Search w run
      → Ends (λ sock v. is_negative sock ≡ false → Fds (sock ∷ fds) v) Anything run
  Search-Ends fds same (reached {sock = sock} fine more) = returned (λ _. more ∙ ap (◌∷◌ sock) same)
  Search-Ends fds same (missed failed unchanged) = returned (λ fine. cc)

  pub connect_socket-opens :
      EpollAnswers system
      → (this : TimingSocket) (host : List ℕ) (port : ℕ) (fds : List ℤ)
      → Triple
          (Fds fds)
          (connect_socket system this host port)
          (λ that v. IsOpen that × Fds (opened that fds) v)
          Anything
  unfolding connect_socket retrieve_connection_candidates
  connect_socket-opens answers this host port fds w same =
      let found = system w (getaddrinfo host port) in
      let asked : Trace = (getaddrinfo host port, found) ∷ w in
      elim (Bool-cases (same_int found.value (pos 0))) [
        | inr failed ↦ rw failed (ended refl tt)
        | inl fine ↦
            rw fine
              (elim (Ends-cases (
                Search-Ends {w = asked} fds same
                  (try_candidates-Search system found.candidates minus_one asked refl))) [
                    | inr (r, v, runs, nil, d) ↦ rw runs (Ends-after _ r v nil tt)
                    | inl (sock, v, runs, more) ↦ rw runs (elim (Bool-cases (is_negative sock)) [
                      | inl failed ↦ rw failed (ended refl tt)
                      | inr reached_it ↦
                          rw reached_it
                            (elim (Ends-cases (
                              enable_epoll-opens system answers peer_events sock (sock ∷ fds) v
                                (more reached_it))) [
                                  | inr (r, u, watched, nil, d) ↦
                                      rw watched (Ends-after _ r u nil tt)
                                  | inl (epfd, u, watched, now) ↦ rw watched (
                                      returned
                                        (record { sock_fd = reached_it; epoll_fd = now.0 }, now.1))
                                ])
                    ])
                  ])
      ]

  pub close_socket-closes :
      (this : TimingSocket) (fds : List ℤ)
      → IsOpen this
      → Triple (Fds fds) (close_socket system this) (λ _ v. Fds (closed this fds) v) Anything
  unfolding close_socket
  close_socket-closes this fds is w same = returned (rw (is.sock_fd, is.epoll_fd, same) refl)

  pub read_base-keeps :
      (this : TimingSocket) (size : ℕ) (blocking : Bool) (fds : List ℤ)
      → Triple (Fds fds) (read_base system this size blocking) (λ _. Fds fds) (Fds fds)
  unfolding read_base
  read_base-keeps this size blocking fds w same = elim (Bool-cases (is_established this.state)) [
    | inr dead ↦ rw dead (ended refl same)
    | inl live ↦
        elim (Bool-cases
          (is_negative (system w (recv this.sock size blocking)).value && blocking)) [
            | inl failed ↦ rw (live, failed) (ended refl same)
            | inr fine ↦ rw (live, fine) (returned same)
          ]
  ]

  module _ {S : Type 0} (base : S → TimingSocket) (again : S → List ℕ → Io S) where
    pub write_base-keeps :
        (this : S) (bytes : List ℕ) (fds : List ℤ)
        → ((rest : List ℕ)
            → Triple
                (Fds fds)
                (again this rest)
                (λ that v. (base that ≡ base this) × Fds fds v)
                (Fds fds))
        → Triple
            (Fds fds)
            (write_base system base again this bytes)
            (λ that v. (base that ≡ base this) × Fds fds v)
            (Fds fds)
    unfolding write_base
    write_base-keeps this bytes fds more w same =
        let sent = (system w (send (base this).sock bytes)).value in
        elim (Bool-cases (is_established (base this).state)) [
          | inr dead ↦ rw dead (ended refl same)
          | inl live ↦ elim (Bool-cases (is_negative sent)) [
            | inl failed ↦ rw (live, failed) (ended refl same)
            | inr fine ↦ elim (Bool-cases (to_size sent == length bytes)) [
              | inl whole ↦ rw (live, fine, whole) (returned (refl, same))
              | inr short ↦ rw (live, fine, short) (more (drop (to_size sent) bytes) _ same)
            ]
          ]
        ]

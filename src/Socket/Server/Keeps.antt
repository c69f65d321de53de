-- ===== src/Socket/Server/Keeps.antt =====
-- The methods of ServerSocket and the descriptors that are open.
use timing_proxy.Base.{
  ℕ, zero, suc, ◌≡◌, refl, ℤ, is_negative, to_size, Bool, true, false, ◌&&◌, inl, inr, List, ◌∷◌,
  length, drop, ◌==◌, Bool-cases,
}
use timing_proxy.Os.Calls.{Trace, System, accept_from, recv, send}
use timing_proxy.Os.Descriptors.{erase}
use timing_proxy.Os.Triples.{Triple, returned, ended, Ends-cases, Ends-after}
use timing_proxy.Socket.Epoll.{peer_events}
use timing_proxy.Socket.Epoll.Descriptors.{EpollAnswers, enable_epoll-opens}
use timing_proxy.Socket.Laws.{Fds, Anything}
use timing_proxy.Socket.Server.{ServerSocket, accept, close_client, read, write}

-- A server socket with a client, whose two descriptors are open.
pub record HasClient (new : ServerSocket) : Type 0 where
  pub client_fd : is_negative new.client_sock ≡ false
  pub epoll_fd : is_negative new.epfd ≡ false
  pub is_set : new.has_client ≡ true

abbrev pub with_client : ServerSocket → List ℤ → List ℤ
with_client this fds = this.epfd ∷ this.client_sock ∷ fds

module _ (system : System) where
  pub accept-opens :
      EpollAnswers system
      → (this : ServerSocket) (fds : List ℤ)
      → Triple
          (Fds fds)
          (accept system this)
          (λ that v. HasClient that × Fds (with_client that fds) v)
          Anything
  unfolding accept
  accept-opens answers this fds w same =
      let client = system w (accept_from this.sock) in
      let accepted : Trace = (accept_from this.sock, client) ∷ w in
      elim (Bool-cases (is_negative client.value)) [
        | inl failed ↦ rw failed (ended refl tt)
        | inr fine ↦
            rw fine
              (elim (Ends-cases (
                enable_epoll-opens system answers peer_events this.sock (client.value ∷ fds)
                  accepted (rw (fine, same) refl))) [
                    | inr (r, v, watched, nil, d) ↦ rw watched (Ends-after _ r v nil tt)
                    | inl (epfd, v, watched, now) ↦ rw watched (
                        returned
                          (record { client_fd = fine; epoll_fd = now.0; is_set = refl }, now.1))
                  ])
      ]

  pub close_client-closes :
      (this : ServerSocket) (fds : List ℤ)
      → HasClient this
      → Triple
          (Fds fds)
          (close_client system this)
          (λ _ v. Fds (erase this.epfd (erase this.client_sock fds)) v)
          Anything
  unfolding close_client
  close_client-closes this fds has w same = returned (rw (has.client_fd, has.epoll_fd, same) refl)

  pub read-keeps :
      (this : ServerSocket) (size : ℕ) (blocking : Bool) (fds : List ℤ)
      → Triple (Fds fds) (read system this size blocking) (λ _. Fds fds) (Fds fds)
  unfolding read
  read-keeps this size blocking fds w same =
      elim (Bool-cases
        (is_negative (system w (recv this.client_sock size blocking)).value && blocking)) [
          | inl failed ↦ rw failed (ended refl same)
          | inr fine ↦ rw fine (returned same)
        ]

  pub write-keeps :
      (fuel : ℕ) (this : ServerSocket) (bytes : List ℕ) (fds : List ℤ)
      → Triple (Fds fds) (write system fuel this bytes) (λ _. Fds fds) (Fds fds)
  unfolding write
  write-keeps zero this bytes fds w same = ended refl same
  write-keeps (suc fuel) this bytes fds w same =
      let sent = (system w (send this.client_sock bytes)) in
      elim (Bool-cases (is_negative sent.value)) [
        | inl failed ↦ rw failed (ended refl same)
        | inr fine ↦ elim (Bool-cases (to_size sent.value == length bytes)) [
          | inl whole ↦ rw (fine, whole) (returned same)
          | inr short ↦
              rw (fine, short)
                (elim (Ends-cases (
                  write-keeps fuel this (drop (to_size sent.value) bytes) fds
                    ((send this.client_sock bytes, sent) ∷ w) same)) [
                      | inl (a, v, runs, now) ↦ rw runs (returned now)
                      | inr (r, v, runs, nil, d) ↦ rw runs (Ends-after _ r v nil d)
                    ])
        ]
      ]

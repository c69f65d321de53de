-- ===== src/Socket/Timing/Descriptors.antt =====
-- TimingSocket::connect: the descriptors that it leaves open, and how often it tries.
use timing_proxy.Base.{
  ℕ, zero, suc, ◌≡◌, refl, ap, ◌∙◌, ℤ, pos, minus_one, is_negative, same_int, true, false, inl, inr,
  List, [], ◌∷◌, Outcome, ok, throws, terminate, Exception, runtime_error, Bool-cases,
  if◌then◌else◌,
}
use timing_proxy.Os.Calls.{
  Reply, Trace, System, AddrInfo, getaddrinfo, freeaddrinfo, socket, connect, close, epoll_create1,
  epoll_ctl_add, sleep_ms,
}
use timing_proxy.Os.Io.{after, pure, call, io_throw_if, ◌>>=◌, ◌>>◌}
use timing_proxy.Os.Descriptors.{open_fds, erase-head}
use timing_proxy.Socket.Epoll.{enable_epoll_with_events, peer_events}
use timing_proxy.Socket.Timing.{
  established, TimingSocket, retry, try_candidate, try_candidates, retrieve_connection_candidates,
  connect_socket,
}

-- What the search for a connection gives: a negative number and no new descriptor, or an open one.
pub data Search (w : Trace) : Outcome ℤ × Trace → Type 0 where
  reached :
      {sock : ℤ} {v : Trace}
      → is_negative sock ≡ false
      → open_fds v ≡ sock ∷ open_fds w
      → Search w (ok sock, v)
  missed :
      {sock : ℤ} {v : Trace}
      → is_negative sock ≡ true
      → open_fds v ≡ open_fds w
      → Search w (ok sock, v)

Search-from :
    {w v : Trace} {run : Outcome ℤ × Trace} → open_fds v ≡ open_fds w → Search v run → Search w run
Search-from same (reached {sock = sock} fine opened) = reached fine (opened ∙ ap (◌∷◌ sock) same)
Search-from same (missed failed opened) = missed failed (opened ∙ same)

module _ (system : System) where
  -- Opening a socket that does not connect and closing it changes nothing.
  open-close :
      (made reply : Reply) (family type protocol : ℕ) (addr : List ℕ) (unreached : Reply)
      (w : Trace)
      → open_fds (
          (close made.value, reply)
          ∷ (connect made.value addr, unreached)
          ∷ (socket family type protocol, made)
          ∷ w)
        ≡ open_fds w
  open-close made reply family type protocol addr unreached w =
      elim (Bool-cases (is_negative made.value)) [
        | inl failed ↦ rw failed refl
        | inr fine ↦ rw fine (erase-head made.value (open_fds w))
      ]

  retry-Search :
      (attempts : ℕ) (res : AddrInfo) (w : Trace) → Search w (retry system attempts res w)
  unfolding retry
  retry-Search zero res w = missed refl refl
  retry-Search (suc attempts) res w =
      let slept : Trace = (sleep_ms 5, system w (sleep_ms 5)) ∷ w in
      let ask = socket res.ai_family res.ai_socktype res.ai_protocol in
      let made = system slept ask in
      let asked : Trace = (ask, made) ∷ slept in
      let tried = connect made.value res.ai_addr in
      let answer = system asked tried in
      let closing = close made.value in
      let shut = system ((tried, answer) ∷ asked) closing in
      elim (Bool-cases (is_negative answer.value)) [
        | inl unreached ↦ rw unreached (
            Search-from
              (open-close made shut res.ai_family res.ai_socktype res.ai_protocol res.ai_addr answer
                slept)
              (retry-Search attempts res ((closing, shut) ∷ (tried, answer) ∷ asked)))
        | inr through ↦ elim (Bool-cases (is_negative made.value)) [
          | inl failed ↦
              rw (through, failed)
                (Search-from (rw failed refl) (retry-Search attempts res ((tried, answer) ∷ asked)))
          | inr fine ↦ rw (through, fine) (reached fine (rw fine refl))
        ]
      ]

  try_candidate-Search : (res : AddrInfo) (w : Trace) → Search w (try_candidate system res w)
  unfolding try_candidate
  try_candidate-Search res w =
      let ask = socket res.ai_family res.ai_socktype res.ai_protocol in
      let made = system w ask in
      let asked : Trace = (ask, made) ∷ w in
      let tried = connect made.value res.ai_addr in
      let answer = system asked tried in
      let closing = close made.value in
      let shut = system ((tried, answer) ∷ asked) closing in
      elim (Bool-cases (is_negative made.value)) [
        | inl failed ↦ rw failed (missed failed (rw failed refl))
        | inr fine ↦ elim (Bool-cases (is_negative answer.value)) [
          | inl unreached ↦
              rw (fine, unreached)
                (Search-from
                  (open-close made shut res.ai_family res.ai_socktype res.ai_protocol res.ai_addr
                    answer w)
                  (retry-Search 100 res ((closing, shut) ∷ (tried, answer) ∷ asked)))
          | inr through ↦ rw (fine, through) (reached fine (rw fine refl))
        ]
      ]

  Search-next :
      {w : Trace} {run : Outcome ℤ × Trace} (more : List AddrInfo)
      → Search w run
      → ((sock : ℤ) (v : Trace)
          → is_negative sock ≡ true
          → Search v (try_candidates system sock more v))
      → Search w (
          after
            (λ tried. if is_negative tried then try_candidates system tried more else pure tried)
            run.1
            run.0)
  Search-next more (reached {sock = sock} fine opened) next = rw fine (reached fine opened)
  Search-next more (missed {sock = sock} {v = v} failed same) next =
      rw failed (Search-from same (next sock v failed))

  pub try_candidates-Search :
      (candidates : List AddrInfo) (sock : ℤ) (w : Trace)
      → is_negative sock ≡ true
      → Search w (try_candidates system sock candidates w)
  unfolding try_candidates
  try_candidates-Search [] sock w failed = missed failed refl
  try_candidates-Search (res ∷ more) sock w failed =
      Search-next more (try_candidate-Search res w) (λ sock' v. try_candidates-Search more sock' v)

-- How `connect` ends, with the descriptors that it leaves.
pub data Connected (w : Trace) (host : List ℕ) (port : ℕ)
    : Outcome TimingSocket × Trace → Type 0 where
  connected :
      {this : TimingSocket} {v : Trace}
      → this.state ≡ established
      → (this.host ≡ host) × (this.port ≡ port)
      → open_fds v ≡ this.epfd ∷ this.sock ∷ open_fds w
      → Connected w host port (ok this, v)
  unreachable :
      {e : Exception} {v : Trace} → open_fds v ≡ open_fds w → Connected w host port (throws e, v)
  aborted : {v : Trace} → Connected w host port (terminate, v)

data Watched (w : Trace) : Outcome ℤ × Trace → Type 0 where
  watched : {epfd : ℤ} {v : Trace} → open_fds v ≡ epfd ∷ open_fds w → Watched w (ok epfd, v)
  unwatched : {v : Trace} → Watched w (terminate, v)

module _ (system : System) where
  enable_epoll-Watched :
      (events : ℕ) (sock : ℤ) (w : Trace)
      → Watched w (enable_epoll_with_events system events sock w)
  unfolding enable_epoll_with_events
  enable_epoll-Watched events sock w =
      let created = system w epoll_create1 in
      let added =
        system ((epoll_create1, created) ∷ w) (epoll_ctl_add created.value (pos 0) events sock) in
      elim (Bool-cases (same_int created.value minus_one)) [
        | inl failed ↦ rw failed unwatched
        | inr fine ↦ elim (Bool-cases (same_int added.value (pos 0))) [
          | inl good ↦ rw (fine, good) (watched (rw fine refl))
          | inr bad ↦ rw (fine, bad) unwatched
        ]
      ]

  Watched-Connected :
      (host : List ℕ) (port : ℕ) {w v : Trace} {sock : ℤ} {run : Outcome ℤ × Trace}
      → open_fds v ≡ sock ∷ open_fds w
      → Watched v run
      → Connected w host port (
          after
            (λ epfd.
              call system freeaddrinfo
              >> pure (record {
                state = established;
                sock = sock;
                epfd = epfd;
                host = host;
                port = port;
              }))
            run.1
            run.0)
  Watched-Connected host port opened (watched {epfd = epfd} more) =
      connected refl (refl, refl) (more ∙ ap (◌∷◌ epfd) opened)
  Watched-Connected host port opened unwatched = aborted

  Search-Connected :
      (host : List ℕ) (port : ℕ) {w v : Trace} {run : Outcome ℤ × Trace}
      → open_fds v ≡ open_fds w
      → Search v run
      → Connected w host port (
          after
            (λ sock.
              io_throw_if (is_negative sock) (runtime_error "Unable to open socket for host")
              >> (enable_epoll_with_events system peer_events sock >>= λ epfd.
                  call system freeaddrinfo
                  >> pure (record {
                    state = established;
                    sock = sock;
                    epfd = epfd;
                    host = host;
                    port = port;
                  })))
            run.1
            run.0)
  Search-Connected host port same (missed failed unchanged) =
      rw failed (unreachable (unchanged ∙ same))
  Search-Connected host port same (reached {sock = sock} {v = u} fine opened) = rw fine (
      Watched-Connected host port (opened ∙ ap (◌∷◌ sock) same)
        (enable_epoll-Watched peer_events sock u))

  -- Whatever the system answers, TimingSocket::connect ends: the socket is established with its host
  -- and port, and exactly its socket and its epoll descriptor are open beyond those before; or it
  -- throws and no descriptor is left open by any of the attempts; or it calls std::terminate.
  pub connect_socket-Connected :
      (this : TimingSocket) (host : List ℕ) (port : ℕ) (w : Trace)
      → Connected w host port (connect_socket system this host port w)
  unfolding connect_socket retrieve_connection_candidates
  connect_socket-Connected this host port w =
      let found = system w (getaddrinfo host port) in
      let asked : Trace = (getaddrinfo host port, found) ∷ w in
      elim (Bool-cases (same_int found.value (pos 0))) [
        | inr failed ↦ rw failed (unreachable refl)
        | inl fine ↦ rw fine (
            Search-Connected host port {v = asked} refl
              (try_candidates-Search system found.candidates minus_one asked refl))
      ]

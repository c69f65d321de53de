-- ===== src/Proxy/Keeps.antt =====
-- The functions of TimingProxy.cpp that forward data: the descriptors that are open stay as they are.
use timing_proxy.Base.{
  ℕ, zero, suc, ◌≡◌, refl, ◌∙◌, ℤ, pos, is_negative, same_int, to_size, true, false, not, ◌&&◌, inl,
  inr, List, [], ◌++◌, Option, none, some, take, Bool-cases,
}
use timing_proxy.Os.Calls.{Trace, System}
use timing_proxy.Os.Io.{Io}
use timing_proxy.Os.Triples.{
  Triple, Ends, returned, ended, Ends-cases, Ends-to, Ends-after, Ends-end, Ends-catch,
}
use timing_proxy.Socket.Laws.{Fds, KeepsFds}
use timing_proxy.Socket.Epoll.Descriptors.{peer_closed-keeps}
use timing_proxy.Socket.Server.{ServerSocket, peer_closed}
use timing_proxy.Socket.Server.Keeps.{read-keeps, write-keeps}
use timing_proxy.Socket.Timing.{TimingSocket, SocketClass, timing_peer_closed}
use timing_proxy.Proxy.Text.{c_string, find_line, stoi}
use timing_proxy.Proxy.{
  TimingProxy, bufsize, or_read_on, getline, get_proxy_target, try_forward_input,
  try_forward_output, forward_both, any_peer_closed, forward_loop,
}

-- A proxy with the same sockets. What the timing socket has measured may be another.
pub record SameSockets {S : Type 0} (base_of : S → TimingSocket) (this that : TimingProxy S)
    : Type 0 where
  pub proxy_input : that.proxy_input ≡ this.proxy_input
  pub control : that.control ≡ this.control
  pub proxy_output : base_of that.proxy_output ≡ base_of this.proxy_output

SameSockets-trans :
    {S : Type 0} (base_of : S → TimingSocket) {this that last : TimingProxy S}
    → SameSockets base_of this that
    → SameSockets base_of that last
    → SameSockets base_of this last
SameSockets-trans base_of first second = record {
  proxy_input = second.proxy_input ∙ first.proxy_input;
  control = second.control ∙ first.control;
  proxy_output = second.proxy_output ∙ first.proxy_output;
}

or_read_on-keeps :
    (found : Option (List ℕ × List ℕ)) (again : Io (List ℕ × List ℕ)) (fds : List ℤ) (w : Trace)
    → Fds fds w
    → Ends (λ _. Fds fds) (Fds fds) (again w)
    → Ends (λ _. Fds fds) (Fds fds) (or_read_on found again w)
or_read_on-keeps (some split) again fds w same more = returned same
or_read_on-keeps none again fds w same more = more

module _ (system : System) where
  pub getline-keeps :
      (fuel : ℕ) (control : ServerSocket) (str : List ℕ) (fds : List ℤ)
      → Triple (Fds fds) (getline system fuel control str) (λ _. Fds fds) (Fds fds)
  unfolding getline
  getline-keeps zero control str fds w same = ended refl same
  getline-keeps (suc fuel) control str fds w same =
      or_read_on-keeps (find_line str) _ fds w same
        (elim (Ends-cases (read-keeps system control 1024 true fds w same)) [
          | inr (r, v, runs, nil, d) ↦ rw runs (Ends-after _ r v nil d)
          | inl (got, v, runs, now) ↦
              rw runs (
                getline-keeps fuel control (str ++ c_string (take (to_size got.0) got.1)) fds v now)
        ])

module _ {S : Type 0} (system : System) (class : SocketClass S) (fuel : ℕ) where
  open class use {base_of}

  the_same : {this : TimingProxy S} → SameSockets base_of this this
  the_same = record { proxy_input = refl; control = refl; proxy_output = refl }

  abbrev KeptIf : TimingProxy S → List ℤ → Option (TimingProxy S) → Trace → Type 0
  KeptIf this fds none v = Unit × Fds fds v
  KeptIf this fds (some that) v = SameSockets base_of this that × Fds fds v

  pub get_proxy_target-keeps :
      (this : TimingProxy S) (fds : List ℤ)
      → Triple
          (Fds fds)
          (get_proxy_target system class fuel this)
          (λ that v. SameSockets base_of this that × Fds fds v)
          (Fds fds)
  unfolding get_proxy_target
  get_proxy_target-keeps this fds w same =
      elim (Ends-cases (getline-keeps system fuel this.control [] fds w same)) [
        | inr (r, v, runs, nil, d) ↦ rw runs (Ends-after _ r v nil d)
        | inl (first, v, runs, now) ↦
            rw runs (elim (Ends-cases (getline-keeps system fuel this.control first.1 fds v now)) [
              | inr (r, u, more, nil, d) ↦ rw more (Ends-after _ r u nil d)
              | inl (second, u, more, then_) ↦ rw more (
                  Ends-end _ (stoi second.0) u then_ (λ port.
                    returned
                      (record { proxy_input = refl; control = refl; proxy_output = refl }, then_)))
            ])
      ]

  module _ (keeps : KeepsFds class) where
    pub try_forward_input-keeps :
        (this : TimingProxy S) (fds : List ℤ)
        → Triple
            (Fds fds)
            (try_forward_input system class fuel this)
            (λ that v. SameSockets base_of this that × Fds fds v)
            (Fds fds)
    unfolding try_forward_input
    try_forward_input-keeps this fds w same =
        elim (Ends-cases (read-keeps system this.proxy_input bufsize false fds w same)) [
          | inr (r, v, runs, nil, d) ↦ rw runs (Ends-after _ r v nil d)
          | inl (got, v, runs, now) ↦ rw runs (elim (Bool-cases (same_int got.0 (pos 0))) [
            | inl closed ↦ rw closed (ended refl now)
            | inr live ↦ rw live (elim (Bool-cases (is_negative got.0)) [
              | inl nothing ↦ rw nothing (returned (the_same, now))
              | inr some_bytes ↦
                  rw some_bytes
                    (elim (Ends-cases
                      (keeps.writes this.proxy_output (take (to_size got.0) got.1) fds v now)) [
                        | inr (r, u, more, nil, d) ↦ rw more (Ends-after _ r u nil d)
                        | inl (output, u, more, then_) ↦ rw more (
                            returned (
                              record { proxy_input = refl; control = refl; proxy_output = then_.0 },
                              then_.1,
                            ))
                      ])
            ])
          ])
        ]

    try_forward_output-keeps :
        (native_to_big : ℕ → List ℕ) (this : TimingProxy S) (fds : List ℤ)
        → Triple
            (Fds fds)
            (try_forward_output system class fuel native_to_big this)
            (λ that v. SameSockets base_of this that × Fds fds v)
            (Fds fds)
    unfolding try_forward_output
    try_forward_output-keeps native_to_big this fds w same =
        elim (Ends-cases (keeps.reads this.proxy_output bufsize false fds w same)) [
          | inr (r, v, runs, nil, d) ↦ rw runs (Ends-after _ r v nil d)
          | inl (got, v, runs, now) ↦
              let unchanged : SameSockets base_of this (record this { proxy_output = got.0 }) =
                record { proxy_input = refl; control = refl; proxy_output = now.0 } in
              rw runs (elim (Bool-cases (same_int got.1.0 (pos 0))) [
                | inl closed ↦ rw closed (ended refl now.1)
                | inr live ↦ rw live (elim (Bool-cases (is_negative got.1.0)) [
                  | inl nothing ↦ rw nothing (returned (unchanged, now.1))
                  | inr some_bytes ↦
                      rw some_bytes
                        (elim (Ends-cases (
                          write-keeps system fuel this.proxy_input (take (to_size got.1.0) got.1.1)
                            fds v now.1)) [
                              | inr (r, u, more, nil, d) ↦ rw more (Ends-after _ r u nil d)
                              | inl (sent, u, more, then_) ↦ rw more (
                                  Ends-end _ (class.measurement got.0) u then_ (λ tstamp.
                                    elim (Ends-cases (
                                      write-keeps system fuel this.control (native_to_big tstamp)
                                        fds u then_)) [
                                          | inr (r, t, last, nil, d) ↦
                                              rw last (Ends-after _ r t nil d)
                                          | inl (sent, t, last, in_the_end) ↦
                                              rw last (returned (unchanged, in_the_end))
                                        ]))
                            ])
                ])
              ])
        ]

    forward_both-keeps :
        (native_to_big : ℕ → List ℕ) (this : TimingProxy S) (fds : List ℤ)
        → Triple
            (Fds fds)
            (forward_both system class fuel native_to_big this)
            (λ r v. SameSockets base_of this r.0 × Fds fds v)
            (Fds fds)
    unfolding forward_both
    forward_both-keeps native_to_big this fds w same =
        elim (Ends-cases (
          Ends-catch {Q = KeptIf this fds} (try_forward_input system class fuel this) w
            (try_forward_input-keeps this fds w same) (λ v d. (tt, d)))) [
              | inr (r, v, runs, nil, d) ↦ rw runs (Ends-after _ r v nil d)
              | inl (none, v, runs, now) ↦ rw runs (returned (the_same, now.1))
              | inl (some this₁, v, runs, now) ↦
                  rw runs
                    (elim (Ends-cases (
                      Ends-catch {Q = KeptIf this₁ fds}
                        (try_forward_output system class fuel native_to_big this₁) v
                        (try_forward_output-keeps native_to_big this₁ fds v now.1)
                        (λ u d. (tt, d)))) [
                          | inr (r, u, more, nil, d) ↦ rw more (Ends-after _ r u nil d)
                          | inl (none, u, more, then_) ↦ rw more (returned (now.0, then_.1))
                          | inl (some this₂, u, more, then_) ↦
                              rw more (returned (SameSockets-trans base_of now.0 then_.0, then_.1))
                        ])
            ]

  any_peer_closed-keeps :
      (this : TimingProxy S) (fds : List ℤ)
      → Triple (Fds fds) (any_peer_closed system class fuel this) (λ _. Fds fds) (Fds fds)
  unfolding any_peer_closed peer_closed timing_peer_closed
  any_peer_closed-keeps this fds w same =
      elim (Ends-cases (peer_closed-keeps system this.proxy_input.epfd fds w same)) [
        | inr (r, v, runs, nil, d) ↦ rw runs (Ends-after _ r v nil d)
        | inl (true, v, runs, now) ↦ rw runs (returned now)
        | inl (false, v, runs, now) ↦
            rw runs (elim (Ends-cases (peer_closed-keeps system this.control.epfd fds v now)) [
              | inr (r, u, more, nil, d) ↦ rw more (Ends-after _ r u nil d)
              | inl (true, u, more, then_) ↦ rw more (returned then_)
              | inl (false, u, more, then_) ↦
                  rw more (peer_closed-keeps system (base_of this.proxy_output).epfd fds u then_)
            ])
      ]

  pub forward_loop-keeps :
      KeepsFds class
      → (native_to_big : ℕ → List ℕ) (rounds : ℕ) (this : TimingProxy S) (fds : List ℤ)
      → Triple
          (Fds fds)
          (forward_loop system class fuel native_to_big rounds this)
          (λ that v. SameSockets base_of this that × Fds fds v)
          (Fds fds)
  unfolding forward_loop
  forward_loop-keeps keeps native_to_big zero this fds w same = ended refl same
  forward_loop-keeps keeps native_to_big (suc rounds) this fds w same =
      elim (Ends-cases (forward_both-keeps keeps native_to_big this fds w same)) [
        | inr (r, v, runs, nil, d) ↦ rw runs (Ends-after _ r v nil d)
        | inl (forwarded, v, runs, now) ↦
            rw runs (elim (Ends-cases (any_peer_closed-keeps forwarded.0 fds v now.1)) [
              | inr (r, u, more, nil, d) ↦ rw more (Ends-after _ r u nil d)
              | inl (gone, u, more, then_) ↦ rw more (elim (Bool-cases (forwarded.1 && not gone)) [
                | inr stop ↦ rw stop (returned (now.0, then_))
                | inl go_on ↦ rw go_on (
                    Ends-to (forward_loop-keeps keeps native_to_big rounds forwarded.0 fds u then_)
                      (λ that t kept. (SameSockets-trans base_of now.0 kept.0, kept.1)))
              ])
            ])
      ]

-- ===== src/Proxy/Descriptors.antt =====
-- handle_client of TimingProxy.cpp and the descriptors that are open.
use timing_proxy.Base.{ℕ, ◌≡◌, refl, sym, ◌∙◌, subst, arith, ℤ, inl, inr, List, [], ◌∷◌, ok}
use timing_proxy.Os.Calls.{Trace, System}
use timing_proxy.Os.Io.{Io, ◌>>=◌, pure}
use timing_proxy.Os.Descriptors.{open_fds, close_all, SameFds, times-close_all}
use timing_proxy.Os.Triples.{Triple, Ends, returned, ended, Ends-ok, Ends-cases, Ends-after}
use timing_proxy.Socket.Laws.{Fds, Anything, KeepsFds, IsOpen, opened}
use timing_proxy.Socket.Epoll.Descriptors.{EpollAnswers}
use timing_proxy.Socket.Server.{ServerSocket, close_client}
use timing_proxy.Socket.Server.Keeps.{HasClient, with_client, accept-opens, close_client-closes}
use timing_proxy.Socket.Timing.{TimingSocket, SocketClass}
use timing_proxy.Proxy.Text.{to_uint16}
use timing_proxy.Proxy.{TimingProxy, forward_loop, handle_client}
use timing_proxy.Proxy.Keeps.{SameSockets, get_proxy_target-keeps, forward_loop-keeps}

-- What the six descriptors of a client add is taken away by closing them in handle_client's order.
balanced :
    (output : TimingSocket) (input control : ServerSocket) (fds : List ℤ)
    → SameFds
        (close_all
          (input.client_sock ∷ input.epfd ∷ control.client_sock ∷ control.epfd ∷ output.sock
            ∷ output.epfd ∷ [])
          (opened output (with_client input (with_client control fds))))
        fds
balanced output input control fds z =
    times-close_all z
      (input.client_sock ∷ input.epfd ∷ control.client_sock ∷ control.epfd ∷ output.sock
        ∷ output.epfd ∷ [])
      (opened output (with_client input (with_client control fds)))
    ∙ omega arith

module _ {S : Type 0} (system : System) (class : SocketClass S) (fuel : ℕ)
    (answers : EpollAnswers system) (keeps : KeepsFds class) (native_to_big : ℕ → List ℕ) where
  open class use {base_of, connect_to, close_of}

  -- The three sockets of a client that is connected, above the descriptors that were open before.
  record Serving (this : TimingProxy S) (fds : List ℤ) (w : Trace) : Type 0 where
    control : HasClient this.control
    input : HasClient this.proxy_input
    output : IsOpen (base_of this.proxy_output)
    all :
        Fds
          (opened
            (base_of this.proxy_output)
            (with_client this.proxy_input (with_client this.control fds)))
          w

  Serving-SameSockets :
      {this that : TimingProxy S} {fds : List ℤ} {w v : Trace}
      → Serving this fds w
      → SameSockets base_of this that
      → Fds (open_fds w) v
      → Serving that fds v
  Serving-SameSockets serving kept now = record {
    control = rw kept.control serving.control;
    input = rw kept.proxy_input serving.input;
    output = rw kept.proxy_output serving.output;
    all = rw (kept.proxy_output, kept.proxy_input, kept.control) (now ∙ serving.all);
  }

  loop-Serving :
      (rounds : ℕ) (this : TimingProxy S) (fds : List ℤ) (w : Trace)
      → Serving this fds w
      → Ends
          (λ that. Serving that fds)
          Anything
          (forward_loop system class fuel native_to_big rounds this w)
  loop-Serving rounds this fds w serving =
      elim (Ends-cases (
        forward_loop-keeps system class fuel keeps native_to_big rounds this (open_fds w) w refl)) [
          | inl (that, v, runs, now) ↦ rw runs (returned (Serving-SameSockets serving now.0 now.1))
          | inr (r, v, runs, nil, d) ↦ rw runs (ended nil tt)
        ]

  abbrev close_sockets : TimingProxy S → Io (TimingProxy S)
  close_sockets this = do
    input ← close_client system this.proxy_input
    control ← close_client system this.control
    output ← close_of this.proxy_output
    pure (record this { proxy_input = input; control = control; proxy_output = output })

  closing :
      (this : TimingProxy S) (fds : List ℤ) (w : Trace)
      → Serving this fds w
      → Ends (λ _ v. SameFds (open_fds v) fds) Anything (close_sockets this w)
  closing this fds w serving =
      elim (Ends-cases
        (close_client-closes system this.proxy_input _ serving.input w serving.all)) [
          | inr (r, v, runs, nil, d) ↦ rw runs (Ends-after _ r v nil tt)
          | inl (input, v, runs, now) ↦
              rw runs
                (elim (Ends-cases
                  (close_client-closes system this.control _ serving.control v now)) [
                    | inr (r, u, more, nil, d) ↦ rw more (Ends-after _ r u nil tt)
                    | inl (control, u, more, then_) ↦
                        rw more
                          (elim (Ends-cases
                            (keeps.closes this.proxy_output _ serving.output u then_)) [
                              | inr (r, t, last, nil, d) ↦ rw last (Ends-after _ r t nil tt)
                              | inl (output, t, last, in_the_end) ↦ rw last (
                                  returned (
                                    subst (λ now. SameFds now fds) (sym in_the_end)
                                      (balanced (base_of this.proxy_output) this.proxy_input
                                        this.control fds)))
                            ])
                  ])
        ]

  handle_client-closes :
      (rounds : ℕ) (this : TimingProxy S) (fds : List ℤ)
      → Triple
          (Fds fds)
          (handle_client system class fuel native_to_big rounds this)
          (λ _ v. SameFds (open_fds v) fds)
          Anything
  unfolding handle_client
  handle_client-closes rounds this fds w same =
      elim (Ends-cases (accept-opens system answers this.control fds w same)) [
        | inr (r, v₁, runs₁, nil, d) ↦ rw runs₁ (Ends-after _ r v₁ nil tt)
        | inl (control, v₁, runs₁, now₁) ↦
            rw runs₁
              (elim (Ends-cases (
                get_proxy_target-keeps system class fuel (record this { control = control })
                  (with_client control fds) v₁ now₁.1)) [
                    | inr (r, v₂, runs₂, nil, d) ↦ rw runs₂ (Ends-after _ r v₂ nil tt)
                    | inl (this₁, v₂, runs₂, now₂) ↦
                        rw runs₂
                          (elim (Ends-cases (
                            accept-opens system answers this₁.proxy_input (with_client control fds)
                              v₂ now₂.1)) [
                                | inr (r, v₃, runs₃, nil, d) ↦ rw runs₃ (Ends-after _ r v₃ nil tt)
                                | inl (input, v₃, runs₃, now₃) ↦
                                    rw runs₃
                                      (elim (Ends-cases (
                                        keeps.connects this₁.proxy_output this₁.connect_host
                                          (to_uint16 this₁.connect_port)
                                          (with_client input (with_client control fds)) v₃
                                          now₃.1)) [
                                            | inr (r, v₄, runs₄, nil, d) ↦
                                                rw runs₄ (Ends-after _ r v₄ nil tt)
                                            | inl (output, v₄, runs₄, now₄) ↦ rw runs₄ (
                                                let serving : Serving
                                                    (record this₁ {
                                                      proxy_input = input;
                                                      proxy_output = output;
                                                    })
                                                    fds v₄ =
                                                  record {
                                                    control = rw now₂.0.control now₁.0;
                                                    input = now₃.0;
                                                    output = now₄.0;
                                                    all = rw now₂.0.control now₄.1;
                                                  } in
                                                elim (Ends-cases (
                                                  loop-Serving rounds
                                                    (record this₁ {
                                                      proxy_input = input;
                                                      proxy_output = output;
                                                    })
                                                    fds v₄ serving)) [
                                                      | inr (r, v₅, runs₅, nil, d) ↦
                                                          rw runs₅ (Ends-after _ r v₅ nil tt)
                                                      | inl (this₂, v₅, runs₅, now₅) ↦
                                                          rw runs₅ (closing this₂ fds v₅ now₅)
                                                    ])
                                          ])
                              ])
                  ])
      ]

  -- If epoll_create1 answers -1 or a descriptor and the class of the timing socket opens and closes
  -- descriptors as KeepsFds says, then the same descriptors are open, each as often, when handleClient
  -- returns as when it was called.
  pub handle_client-SameFds :
      (rounds : ℕ) (this : TimingProxy S) (w : Trace) (that : TimingProxy S) (v : Trace)
      → handle_client system class fuel native_to_big rounds this w ≡ (ok that, v)
      → SameFds (open_fds v) (open_fds w)
  handle_client-SameFds rounds this w that v returns =
      Ends-ok
        (subst (Ends _ Anything) returns (handle_client-closes rounds this (open_fds w) w refl))

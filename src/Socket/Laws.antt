-- ===== src/Socket/Laws.antt =====
-- What the proxy relies on in a timing socket's class: its descriptors.
use timing_proxy.Base.{ℕ, ℤ, ◌≡◌, is_negative, Bool, false, List, ◌∷◌}
use timing_proxy.Os.Calls.{Trace}
use timing_proxy.Os.Descriptors.{open_fds, erase}
use timing_proxy.Os.Triples.{Triple}
use timing_proxy.Socket.Timing.{TimingSocket, SocketClass}

-- Exactly these descriptors are open.
abbrev pub Fds : List ℤ → Trace → Type 0
Fds fds w = open_fds w ≡ fds

abbrev pub Anything : Trace → Type 0
Anything w = Unit

-- An open socket above the descriptors that were open before.
pub record IsOpen (base : TimingSocket) : Type 0 where
  pub sock_fd : is_negative base.sock ≡ false
  pub epoll_fd : is_negative base.epfd ≡ false

abbrev pub opened : TimingSocket → List ℤ → List ℤ
opened base fds = base.epfd ∷ base.sock ∷ fds

abbrev pub closed : TimingSocket → List ℤ → List ℤ
closed base fds = erase base.epfd (erase base.sock fds)

module _ {S : Type 0} (class : SocketClass S) where
  open class use {base_of, connect_to, write_to, read_from, close_of}

  pub record KeepsFds : Type 0 where
    pub connects :
        (this : S) (host : List ℕ) (port : ℕ) (fds : List ℤ)
        → Triple
            (Fds fds)
            (connect_to this host port)
            (λ that v. IsOpen (base_of that) × Fds (opened (base_of that) fds) v)
            Anything
    pub writes :
        (this : S) (bytes : List ℕ) (fds : List ℤ)
        → Triple
            (Fds fds)
            (write_to this bytes)
            (λ that v. (base_of that ≡ base_of this) × Fds fds v)
            (Fds fds)
    pub reads :
        (this : S) (size : ℕ) (blocking : Bool) (fds : List ℤ)
        → Triple
            (Fds fds)
            (read_from this size blocking)
            (λ r v. (base_of r.0 ≡ base_of this) × Fds fds v)
            (Fds fds)
    pub closes :
        (this : S) (fds : List ℤ)
        → IsOpen (base_of this)
        → Triple (Fds fds) (close_of this) (λ that v. Fds (closed (base_of this) fds) v) Anything

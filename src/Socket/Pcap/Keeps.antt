-- ===== src/Socket/Pcap/Keeps.antt =====
-- PCAPTimingSocket keeps the descriptors as the proxy needs it.
use timing_proxy.Base.{
  ℕ, zero, suc, ◌≡◌, refl, ◌∙◌, ℤ, pos, is_negative, same_int, to_size, Bool, ◌||◌, inl, inr, List,
  ◌∷◌, take, length, Bool-cases,
}
use timing_proxy.Packet.Types.{Inet}
use timing_proxy.Pcap.Packets.{PacketDirection, destination_remote, source_remote}
use timing_proxy.Pcap.Reader.{timing_for_packet}
use timing_proxy.Pcap.Open.{PcapWrapper, stop_capture}
use timing_proxy.Pcap.Open.Keeps.{new_on_default-keeps, set_filter-keeps}
use timing_proxy.Os.Calls.{Trace, System, inet_pton4, pcap_breakloop}
use timing_proxy.Os.Triples.{Triple, returned, ended, Ends-cases, Ends-after, Ends-end, Ends-chain}
use timing_proxy.Socket.Laws.{Fds, Anything, IsOpen, opened, closed, KeepsFds}
use timing_proxy.Socket.Epoll.Descriptors.{EpollAnswers}
use timing_proxy.Socket.Timing.Keeps.{
  connect_socket-opens, close_socket-closes, read_base-keeps, write_base-keeps,
}
use timing_proxy.Socket.Pcap.{
  PcapTimingSocket, Capture, pcap_of, is_valid_address, open_default, start_on, connect_pcap,
  close_pcap, time_packet, write, read,
}
use timing_proxy.Socket.Any.{pcap_class}

abbrev SameBase : PcapTimingSocket → List ℤ → PcapTimingSocket → Trace → Type 0
SameBase this fds that v = (that.base ≡ this.base) × Fds fds v

module _ (system : System) where
  is_valid_address-keeps :
      (host : List ℕ) (fds : List ℤ)
      → Triple (Fds fds) (is_valid_address system host) (λ _. Fds fds) (Fds fds)
  unfolding is_valid_address
  is_valid_address-keeps host fds w same =
      elim (Bool-cases (same_int (system w (inet_pton4 host)).value (pos 0))) [
        | inl other ↦ rw other (returned same)
        | inr v4 ↦ rw v4 (returned same)
      ]

  open_default-keeps :
      (blank : PcapWrapper) (this : PcapTimingSocket) (fds : List ℤ)
      → Triple (Fds fds) (open_default system blank this) (λ _. Fds fds) (Fds fds)
  unfolding open_default
  open_default-keeps blank this fds w same = elim (Bool-cases this.pcap_initialized) [
    | inl ready ↦ rw ready (returned same)
    | inr unset ↦ rw unset (elim (Ends-cases (new_on_default-keeps system fds blank w same)) [
      | inr (r, v, runs, nil, d) ↦ rw runs (Ends-after _ r v nil d)
      | inl (dropped, v, runs, now) ↦ rw runs (returned now)
    ])
  ]

  start_on-opens :
      EpollAnswers system
      → (this : PcapTimingSocket) (host : List ℕ) (port : ℕ) (fds : List ℤ)
      → Triple
          (Fds fds)
          (start_on system this host port)
          (λ that v. IsOpen that.base × Fds (opened that.base fds) v)
          Anything
  unfolding start_on
  start_on-opens answers this host port fds w same = Ends-end _ (pcap_of this) w tt (λ pcap.
      elim (Ends-cases (set_filter-keeps system fds pcap host port w same)) [
        | inr (r, v, runs, nil, d) ↦ rw runs (Ends-after _ r v nil tt)
        | inl (filtered, v, runs, now) ↦
            rw runs
              (elim (Ends-cases
                (connect_socket-opens system answers this.base host port fds v now)) [
                  | inr (r, u, more, nil, d) ↦ rw more (Ends-after _ r u nil tt)
                  | inl (base, u, more, then_) ↦ rw more (returned then_)
                ])
      ])

  connect_pcap-opens :
      EpollAnswers system
      → (blank : PcapWrapper) (this : PcapTimingSocket) (host : List ℕ) (port : ℕ) (fds : List ℤ)
      → Triple
          (Fds fds)
          (connect_pcap system blank this host port)
          (λ that v. IsOpen that.base × Fds (opened that.base fds) v)
          Anything
  unfolding connect_pcap
  connect_pcap-opens answers blank this host port fds w same =
      elim (Ends-cases (is_valid_address-keeps host fds w same)) [
        | inr (r, v, runs, nil, d) ↦ rw runs (Ends-after _ r v nil tt)
        | inl (valid, v, runs, now) ↦ rw runs (elim (Bool-cases valid) [
          | inr invalid ↦ rw invalid (ended refl tt)
          | inl fine ↦ rw fine (elim (Ends-cases (open_default-keeps blank this fds v now)) [
            | inr (r, u, more, nil, d) ↦ rw more (Ends-after _ r u nil tt)
            | inl (ready, u, more, then_) ↦
                rw more (start_on-opens answers this host port fds u then_)
          ])
        ])
      ]

  close_pcap-closes :
      (this : PcapTimingSocket) (fds : List ℤ)
      → IsOpen this.base
      → Triple (Fds fds) (close_pcap system this) (λ _ v. Fds (closed this.base fds) v) Anything
  unfolding close_pcap stop_capture
  close_pcap-closes this fds is w same = Ends-end _ (pcap_of this) w tt (λ pcap.
      elim (Ends-cases (
        close_socket-closes system this.base fds is
          ((pcap_breakloop pcap.handle, system w (pcap_breakloop pcap.handle)) ∷ w) same)) [
            | inr (r, v, runs, nil, d) ↦ rw runs (Ends-after _ r v nil tt)
            | inl (base, v, runs, now) ↦ rw runs (returned now)
          ])

module _ (inet : Inet) (system : System) (capture : Capture) where
  time_packet-keeps :
      (this : PcapTimingSocket) (bytes : List ℕ) (direction : PacketDirection) (fds : List ℤ)
      → Triple
          (Fds fds)
          (time_packet inet system capture this bytes direction)
          (λ r. SameBase this fds r.1)
          (Fds fds)
  unfolding time_packet
  time_packet-keeps this bytes direction fds w same = Ends-chain _ (pcap_of this) w same (λ pcap.
      Ends-chain _ (timing_for_packet inet bytes (length bytes) direction (capture w) pcap.usrdata)
        w same (λ r. returned (refl, same)))

  write-keeps :
      (fuel : ℕ) (this : PcapTimingSocket) (bytes : List ℕ) (fds : List ℤ)
      → Triple (Fds fds) (write inet system capture fuel this bytes) (SameBase this fds) (Fds fds)
  unfolding write
  write-keeps zero this bytes fds w same = ended refl same
  write-keeps (suc fuel) this bytes fds w same =
      elim (Ends-cases (
        write_base-keeps system PcapTimingSocket.base (write inet system capture fuel) this bytes
          fds (λ rest. write-keeps fuel this rest fds) w same)) [
            | inr (r, v, runs, nil, d) ↦ rw runs (Ends-after _ r v nil d)
            | inl (sent, v, runs, now) ↦
                rw runs
                  (elim (Ends-cases (time_packet-keeps sent bytes destination_remote fds v now.1)) [
                    | inr (r, u, timed, nil, d) ↦ rw timed (Ends-after _ r u nil d)
                    | inl (that, u, timed, then_) ↦ rw timed (returned (then_.0 ∙ now.0, then_.1))
                  ])
          ]

  read-keeps :
      (this : PcapTimingSocket) (size : ℕ) (blocking : Bool) (fds : List ℤ)
      → Triple
          (Fds fds)
          (read inet system capture this size blocking)
          (λ r. SameBase this fds r.0)
          (Fds fds)
  unfolding read
  read-keeps this size blocking fds w same =
      elim (Ends-cases (read_base-keeps system this.base size blocking fds w same)) [
        | inr (r, v, runs, nil, d) ↦ rw runs (Ends-after _ r v nil d)
        | inl (received, v, runs, now) ↦
            rw runs (elim (Bool-cases (is_negative received.0 || same_int received.0 (pos 0))) [
              | inl nothing ↦ rw nothing (returned (refl, now))
              | inr some_bytes ↦
                  rw some_bytes
                    (elim (Ends-cases (
                      time_packet-keeps this (take (to_size received.0) received.1) source_remote
                        fds v now)) [
                          | inr (r, u, timed, nil, d) ↦ rw timed (Ends-after _ r u nil d)
                          | inl (that, u, timed, then_) ↦ rw timed (returned then_)
                        ])
            ])
      ]

  pub pcap_class-KeepsFds :
      EpollAnswers system
      → (fuel : ℕ) (wrapper : PcapWrapper) → KeepsFds (pcap_class inet system fuel capture wrapper)
  pcap_class-KeepsFds answers fuel wrapper = record {
    connects = connect_pcap-opens system answers wrapper;
    writes = write-keeps fuel;
    reads = read-keeps;
    closes = close_pcap-closes system;
  }

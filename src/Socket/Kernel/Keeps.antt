-- ===== src/Socket/Kernel/Keeps.antt =====
-- KernelTimingSocket keeps the descriptors as the proxy needs it.
use timing_proxy.Base.{
  ℕ, zero, suc, ◌≡◌, refl, ◌∙◌, ℤ, pos, is_negative, same_int, to_size, Bool, true, false, ◌&&◌,
  ◌||◌, inl, inr, List, ◌∷◌, ◌==◌, Bool-cases,
}
use timing_proxy.Packet.Types.{Inet}
use timing_proxy.Pcap.Packets.{same_bytes}
use timing_proxy.Os.Calls.{Trace, System, Reply, recvmsg, sleep_ms, get_hwtstamp, set_timestamping}
use timing_proxy.Os.Triples.{Triple, returned, ended, Ends-cases, Ends-to, Ends-after, Ends-end}
use timing_proxy.Socket.Laws.{Fds, Anything, IsOpen, opened, KeepsFds}
use timing_proxy.Socket.Epoll.Descriptors.{EpollAnswers}
use timing_proxy.Socket.Timing.Keeps.{connect_socket-opens, close_socket-closes, write_base-keeps}
use timing_proxy.Socket.Kernel.{
  KernelTimingSocket, eagain, econnreset, sol_socket, so_timestamping,
  so_timestamping_options_hardware, so_timestamping_options_software, loopback4, loopback6,
  loopback_device, timestamping_message_max_retries, is_stamped, carries, find_message,
  get_tx_timestamp, write, stamp_read, read, initialize_device, use_software, initialize_socket,
  connect_kernel,
}
use timing_proxy.Socket.Any.{kernel_class}

abbrev SameBase : KernelTimingSocket → List ℤ → KernelTimingSocket → Trace → Type 0
SameBase this fds that v = (that.base ≡ this.base) × Fds fds v

module _ (inet : Inet) (system : System) where
  find_message-keeps :
      (retries : ℕ) (this : KernelTimingSocket) (bytes : List ℕ) (fds : List ℤ)
      → Triple (Fds fds) (find_message inet system retries this bytes) (λ _. Fds fds) (Fds fds)
  unfolding find_message
  find_message-keeps zero this bytes fds w same = ended refl same
  find_message-keeps (suc retries) this bytes fds w same =
      let received = system w (recvmsg this.base.sock 1500 true true) in
      let v : Trace = (recvmsg this.base.sock 1500 true true, received) ∷ w in
      let again = find_message-keeps retries this bytes fds in
      elim (Bool-cases (is_negative received.value)) [
        | inl failed ↦ elim (Bool-cases (received.errno == eagain)) [
          | inl empty ↦ rw (failed, empty) (again ((sleep_ms 1, system v (sleep_ms 1)) ∷ v) same)
          | inr other ↦ rw (failed, other) (again v same)
        ]
        | inr fine ↦ elim (Bool-cases (is_stamped received.message)) [
          | inr unstamped ↦ rw (fine, unstamped) (again v same)
          | inl stamped ↦
              rw (fine, stamped)
                (Ends-end _ (carries inet received.bytes (to_size received.value) bytes) v same
                  (λ found. elim (Bool-cases found) [
                    | inl here ↦ rw here (returned same)
                    | inr elsewhere ↦ rw elsewhere (again v same)
                  ]))
        ]
      ]

  get_tx_timestamp-keeps :
      (this : KernelTimingSocket) (bytes : List ℕ) (fds : List ℤ)
      → Triple (Fds fds) (get_tx_timestamp inet system this bytes) (SameBase this fds) (Fds fds)
  unfolding get_tx_timestamp
  get_tx_timestamp-keeps this bytes fds w same =
      elim (Ends-cases
        (find_message-keeps timestamping_message_max_retries this bytes fds w same)) [
          | inr (r, v, runs, nil, d) ↦ rw runs (Ends-after _ r v nil d)
          | inl (message, v, runs, now) ↦ rw runs (returned (refl, now))
        ]

  write-keeps :
      (fuel : ℕ) (this : KernelTimingSocket) (bytes : List ℕ) (fds : List ℤ)
      → Triple (Fds fds) (write inet system fuel this bytes) (SameBase this fds) (Fds fds)
  unfolding write
  write-keeps zero this bytes fds w same = ended refl same
  write-keeps (suc fuel) this bytes fds w same =
      elim (Ends-cases (
        write_base-keeps system KernelTimingSocket.base (write inet system fuel) this bytes fds
          (λ rest. write-keeps fuel this rest fds) w same)) [
            | inr (r, v, runs, nil, d) ↦ rw runs (Ends-after _ r v nil d)
            | inl (sent, v, runs, now) ↦
                rw runs (elim (Ends-cases (get_tx_timestamp-keeps sent bytes fds v now.1)) [
                  | inr (r, u, stamps, nil, d) ↦ rw stamps (ended nil d)
                  | inl (that, u, stamps, then_) ↦ rw stamps (returned (then_.0 ∙ now.0, then_.1))
                ])
          ]

module _ (system : System) where
  stamp_read-keeps :
      (this : KernelTimingSocket) (received : Reply) (fds : List ℤ)
      → Triple (Fds fds) (stamp_read system this received) (λ r. SameBase this fds r.0) (Fds fds)
  unfolding stamp_read
  stamp_read-keeps this received fds w same = elim (Bool-cases received.message.is_truncated) [
    | inl cut ↦ rw cut (ended refl same)
    | inr whole ↦ elim (Bool-cases received.message.is_control_truncated) [
      | inl cut ↦ rw (whole, cut) (ended refl same)
      | inr full ↦ elim (Bool-cases (received.message.controllen == 0)) [
        | inl nothing ↦ rw (whole, full, nothing) (returned (refl, same))
        | inr some_message ↦ elim (Bool-cases (received.message.cmsg_level == sol_socket)) [
          | inr other ↦ rw (whole, full, some_message, other) (ended refl same)
          | inl level ↦ elim (Bool-cases (received.message.cmsg_type == so_timestamping)) [
            | inr other ↦ rw (whole, full, some_message, level, other) (ended refl same)
            | inl stamps ↦ rw (whole, full, some_message, level, stamps) (returned (refl, same))
          ]
        ]
      ]
    ]
  ]

  read-keeps :
      (this : KernelTimingSocket) (size : ℕ) (blocking : Bool) (fds : List ℤ)
      → Triple (Fds fds) (read system this size blocking) (λ r. SameBase this fds r.0) (Fds fds)
  unfolding read
  read-keeps this size blocking fds w same =
      let received = system w (recvmsg this.base.sock size false blocking) in
      let v : Trace = (recvmsg this.base.sock size false blocking, received) ∷ w in
      elim (Bool-cases (same_int received.value (pos 0))) [
        | inl closed ↦ rw closed (returned (refl, same))
        | inr live ↦ elim (Bool-cases (is_negative received.value)) [
          | inr fine ↦ rw (live, fine) (stamp_read-keeps this received fds v same)
          | inl failed ↦ elim (Bool-cases (received.errno == eagain)) [
            | inl empty ↦ rw (live, failed, empty) (returned (refl, same))
            | inr other ↦ elim (Bool-cases (received.errno == econnreset)) [
              | inl reset ↦ rw (live, failed, other, reset) (ended refl same)
              | inr strange ↦ rw (live, failed, other, strange) (ended refl same)
            ]
          ]
        ]
      ]

  initialize_device-keeps :
      (this : KernelTimingSocket) (fds : List ℤ)
      → Triple (Fds fds) (initialize_device system this) (SameBase this fds) Anything
  unfolding initialize_device
  initialize_device-keeps this fds w same =
      let config = system w (get_hwtstamp this.base.sock this.device) in
      elim (Bool-cases
        (same_int config.value (pos 0) && ((config.tx_type == 1) && (config.rx_filter == 1)))) [
          | inl on ↦ rw on (returned (refl, same))
          | inr off ↦ rw off (returned (refl, same))
        ]

  use_software-keeps :
      (this : KernelTimingSocket) (fds : List ℤ)
      → Triple (Fds fds) (use_software system this) (SameBase this fds) Anything
  unfolding use_software
  use_software-keeps this fds w same =
      elim (Bool-cases (
        same_int (system w (set_timestamping this.base.sock so_timestamping_options_software)).value
          (pos 0))) [ inl on ↦ rw on (returned (refl, same)) | inr off ↦ rw off (ended refl tt) ]

  initialize_socket-keeps :
      (this : KernelTimingSocket) (fds : List ℤ)
      → Triple (Fds fds) (initialize_socket system this) (SameBase this fds) Anything
  unfolding initialize_socket
  initialize_socket-keeps this fds w same =
      let hardware = system w (set_timestamping this.base.sock so_timestamping_options_hardware) in
      elim (Bool-cases this.device_supports_hardware_timestamping) [
        | inr off ↦ rw off (
            use_software-keeps (record this { device_supports_hardware_timestamping = false }) fds w
              same)
        | inl on ↦ elim (Bool-cases (same_int hardware.value (pos 0))) [
          | inl set ↦ rw (on, set) (returned (refl, same))
          | inr unset ↦
              rw (on, unset)
                (use_software-keeps (record this { device_supports_hardware_timestamping = true })
                  fds
                  ((set_timestamping this.base.sock so_timestamping_options_hardware, hardware) ∷ w)
                  same)
        ]
      ]

  connect_kernel-opens :
      EpollAnswers system
      → (this : KernelTimingSocket) (host : List ℕ) (port : ℕ) (fds : List ℤ)
      → Triple
          (Fds fds)
          (connect_kernel system this host port)
          (λ that v. IsOpen that.base × Fds (opened that.base fds) v)
          Anything
  unfolding connect_kernel
  connect_kernel-opens answers this host port fds w same =
      elim (Bool-cases (
        same_bytes host loopback4
        || (same_bytes host loopback6 || same_bytes this.device loopback_device))) [
          | inl refused ↦ rw refused (ended refl tt)
          | inr fine ↦
              rw fine
                (elim (Ends-cases
                  (connect_socket-opens system answers this.base host port fds w same)) [
                    | inr (r, v, runs, nil, d) ↦ rw runs (Ends-after _ r v nil tt)
                    | inl (base, v, runs, now) ↦
                        rw runs
                          (elim (Ends-cases (
                            initialize_device-keeps (record this { base = base }) (opened base fds)
                              v now.1)) [
                                | inr (r, u, device, nil, d) ↦ rw device (Ends-after _ r u nil tt)
                                | inl (ready, u, device, then_) ↦ rw device (
                                    Ends-to
                                      (initialize_socket-keeps ready (opened base fds) u then_.1)
                                      (λ that t kept.
                                        let same_base = kept.0 ∙ then_.0 in
                                        (rw same_base now.0, rw same_base kept.1)))
                              ])
                  ])
        ]

module _ (inet : Inet) (system : System) where
  pub kernel_class-KeepsFds :
      EpollAnswers system → (fuel : ℕ) → KeepsFds (kernel_class inet system fuel)
  kernel_class-KeepsFds answers fuel = record {
    connects = connect_kernel-opens system answers;
    writes = write-keeps inet system fuel;
    reads = read-keeps system;
    closes = λ this fds is w same.
        elim (Ends-cases (close_socket-closes system this.base fds is w same)) [
          | inr (r, v, runs, nil, d) ↦ rw runs (Ends-after _ r v nil tt)
          | inl (base, v, runs, now) ↦ rw runs (returned now)
        ];
  }

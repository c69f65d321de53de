-- ===== src/Socket/Cpu/Keeps.antt =====
-- CPUTimingSocket keeps the descriptors as the proxy needs it.
use timing_proxy.Base.{ℕ, zero, suc, ◌≡◌, refl, ◌∙◌, ℤ, Bool, inl, inr, List, ◌∷◌, Bool-cases}
use timing_proxy.Os.Calls.{Trace, System, recv_peek}
use timing_proxy.Os.Triples.{Triple, returned, ended, Ends-cases, Ends-after}
use timing_proxy.TimeSources.{TimeSource, timestamp_counter, os_time}
use timing_proxy.TimeSources.Readings.{clock_call, read_time-reads}
use timing_proxy.Socket.Laws.{Fds, KeepsFds}
use timing_proxy.Socket.Epoll.Descriptors.{EpollAnswers}
use timing_proxy.Socket.Timing.Keeps.{
  connect_socket-opens, close_socket-closes, read_base-keeps, write_base-keeps,
}
use timing_proxy.Socket.Cpu.{CpuTimingSocket, write, read, take_stamps}
use timing_proxy.Socket.Cpu.Class.{cpu_class}

module _ (system : System) where
  -- Reading a clock opens nothing.
  read_time-keeps :
      (source : TimeSource) (fds : List ℤ) (w : Trace)
      → Fds fds w
      → Fds fds ((clock_call source, system w (clock_call source)) ∷ w)
  read_time-keeps timestamp_counter fds w same = same
  read_time-keeps os_time fds w same = same

  take_stamps-keeps :
      (this : CpuTimingSocket) (fds : List ℤ)
      → Triple
          (Fds fds)
          (take_stamps system this)
          (λ that v. (that.base ≡ this.base) × Fds fds v)
          (Fds fds)
  unfolding take_stamps
  take_stamps-keeps this fds w same =
      let first = read_time-keeps this.best_timesource fds w same in
      let v : Trace =
        (clock_call this.best_timesource, system w (clock_call this.best_timesource)) ∷ w in
      let u : Trace = (recv_peek this.base.sock 1, system v (recv_peek this.base.sock 1)) ∷ v in
      elim (Bool-cases this.take_time_on_write) [
        | inl on ↦
            rw
              (
                read_time-reads system this.best_timesource w,
                on,
                read_time-reads system this.best_timesource u,
              )
              (returned (refl, read_time-keeps this.best_timesource fds u first))
        | inr off ↦ rw (read_time-reads system this.best_timesource w, off) (returned (refl, first))
      ]

  write-keeps :
      (fuel : ℕ) (this : CpuTimingSocket) (bytes : List ℕ) (fds : List ℤ)
      → Triple
          (Fds fds)
          (write system fuel this bytes)
          (λ that v. (that.base ≡ this.base) × Fds fds v)
          (Fds fds)
  unfolding write
  write-keeps zero this bytes fds w same = ended refl same
  write-keeps (suc fuel) this bytes fds w same =
      elim (Ends-cases (
        write_base-keeps system CpuTimingSocket.base (write system fuel) this bytes fds
          (λ rest. write-keeps fuel this rest fds) w same)) [
            | inr (r, v, runs, nil, d) ↦ rw runs (Ends-after _ r v nil d)
            | inl (sent, v, runs, now) ↦
                rw runs (elim (Ends-cases (take_stamps-keeps sent fds v now.1)) [
                  | inr (r, u, stamps, nil, d) ↦ rw stamps (ended nil d)
                  | inl (that, u, stamps, then_) ↦ rw stamps (returned (then_.0 ∙ now.0, then_.1))
                ])
          ]

  read-keeps :
      (this : CpuTimingSocket) (size : ℕ) (blocking : Bool) (fds : List ℤ)
      → Triple
          (Fds fds)
          (read system this size blocking)
          (λ r v. (r.0.base ≡ this.base) × Fds fds v)
          (Fds fds)
  unfolding read
  read-keeps this size blocking fds w same =
      elim (Ends-cases (read_base-keeps system this.base size blocking fds w same)) [
        | inr (r, v, runs, nil, d) ↦ rw runs (Ends-after _ r v nil d)
        | inl (got, v, runs, now) ↦ rw runs (elim (Bool-cases this.take_time_on_write) [
          | inl on ↦ rw on (returned (refl, now))
          | inr off ↦
              rw (off, read_time-reads system this.best_timesource v)
                (returned (refl, read_time-keeps this.best_timesource fds v now))
        ])
      ]

  pub cpu_class-KeepsFds : EpollAnswers system → (fuel : ℕ) → KeepsFds (cpu_class system fuel)
  cpu_class-KeepsFds answers fuel = record {
    connects = λ this host port fds w same.
        elim (Ends-cases (connect_socket-opens system answers this.base host port fds w same)) [
          | inr (r, v, runs, nil, d) ↦ rw runs (Ends-after _ r v nil tt)
          | inl (base, v, runs, now) ↦ rw runs (returned now)
        ];
    writes = write-keeps fuel;
    reads = read-keeps;
    closes = λ this fds is w same.
        elim (Ends-cases (close_socket-closes system this.base fds is w same)) [
          | inr (r, v, runs, nil, d) ↦ rw runs (Ends-after _ r v nil tt)
          | inl (base, v, runs, now) ↦ rw runs (returned now)
        ];
  }

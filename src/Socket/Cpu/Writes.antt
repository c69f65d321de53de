-- ===== src/Socket/Cpu/Writes.antt =====
-- CPUTimingSocket::write with the TimingSocket::write that it calls: the bytes that are sent.
use timing_proxy.Base.{
  ℕ, zero, suc, ◌<◌, ◌≡◌, refl, ◌∙◌, append-nil, arith, inl, inr, List, ◌∷◌, length, ok, Bool-cases,
}
use timing_proxy.Os.Calls.{Trace, System, recv_peek}
use timing_proxy.TimeSources.{
  TimeSource, timestamp_counter, os_time, read_time, read_tsc, unix_time,
}
use timing_proxy.Socket.Timing.Writes.{write_base-Delivered}
use timing_proxy.Socket.Cpu.{CpuTimingSocket, write, take_stamps}
use timing_proxy.Socket.Stream.{SendsSome, Delivered, stream, Delivered-after}

module _ (system : System) where
  -- Reading a clock always returns and sends nothing.
  read_time-quiet :
      (source : TimeSource) (sock : _) (w : Trace)
      → (t : ℕ) × (u : Trace) × (read_time system source w ≡ (ok t, u))
        × (stream sock u ≡ stream sock w)
  unfolding read_time read_tsc unix_time
  read_time-quiet timestamp_counter sock w = (_, _, refl, append-nil (stream sock w))
  read_time-quiet os_time sock w = (_, _, refl, append-nil (stream sock w))

  take_stamps-quiet :
      (sock : _) (this : CpuTimingSocket) (w : Trace)
      → (that : CpuTimingSocket) × (u : Trace) × (take_stamps system this w ≡ (ok that, u))
        × (stream sock u ≡ stream sock w)
  unfolding take_stamps
  take_stamps-quiet sock this w = elim (Bool-cases this.take_time_on_write) [
    | inl on ↦
        let (t, u, runs, same) = read_time-quiet this.best_timesource sock w in
        let v : Trace = (recv_peek this.base.sock 1, system u (recv_peek this.base.sock 1)) ∷ u in
        let (answered, u', read, same') = read_time-quiet this.best_timesource sock v in
        rw (runs, on, read) (_, u', refl, same' ∙ (append-nil (stream sock u) ∙ same))
    | inr off ↦
        let (t, u, runs, same) = read_time-quiet this.best_timesource sock w in
        rw (runs, off) (_, u, refl, same)
  ]

  module _ (sends : SendsSome system) where
    -- However the system splits the sends, CPUTimingSocket::write, which calls TimingSocket::write,
    -- which calls it back for the rest, ends, given one call more than there are bytes. If it returns,
    -- the server has been sent all of them, once and in order; if it throws, the first ones. The
    -- system is one whose sends accept at most what they are given, and at least a byte of it if they
    -- succeed.
    pub write-Sent :
        (fuel : ℕ) (this : CpuTimingSocket) (bytes : List ℕ) (w : Trace)
        → length bytes < fuel
        → let run = write system fuel this bytes w in Delivered this.base.sock w bytes run.0 run.1
    unfolding write
    write-Sent zero this bytes w enough = absurd (omega arith)
    write-Sent (suc fuel) this bytes w enough =
        Delivered-after this.base.sock w bytes (take_stamps system)
          (write_base-Delivered system sends CpuTimingSocket.base (write system fuel) this bytes w
            (λ rest v less. write-Sent fuel this rest v (omega arith)))
          (take_stamps-quiet this.base.sock)

-- ===== src/Socket/Cpu/Stamps.antt =====
-- CPUTimingSocket::write: when its two time stamps are taken.
use timing_proxy.Base.{
  ℕ, zero, suc, ◌≡◌, refl, true, false, inl, inr, List, ◌∷◌, length, drop, to_size, is_negative,
  is_negative, ◌==◌, Outcome, ok, throws, terminate, fault, out_of_fuel, Bool-cases,
}
use timing_proxy.Os.Calls.{Reply, Trace, System, recv_peek, send}
use timing_proxy.Os.Io.{is_ok, after}
use timing_proxy.TimeSources.Readings.{clock_call, clock_value, read_time-reads}
use timing_proxy.Socket.Timing.{is_established, write_base}
use timing_proxy.Socket.Cpu.{CpuTimingSocket, write, take_stamps}

module _ (this : CpuTimingSocket) where
  -- Three calls, the last ones first: the clock, a wait for the first byte of the answer, the clock.
  abbrev pub measuring : Reply → Reply → Reply → Trace → Trace
  measuring first peek last u =
      (clock_call this.best_timesource, last)
      ∷ (recv_peek this.base.sock 1, peek)
      ∷ (clock_call this.best_timesource, first)
      ∷ u

  abbrev pub with_stamps : Reply → Reply → CpuTimingSocket
  with_stamps first last = record this {
    write_tstamp = clock_value this.best_timesource first;
    read_tstamp = clock_value this.best_timesource last;
  }

  -- The object has the readings of the last three calls, if it returns.
  pub data Stamped : Outcome CpuTimingSocket × Trace → Type 0 where
    stamped :
        {first peek last : Reply} {u : Trace}
        → Stamped (ok (with_stamps first last), measuring first peek last u)
    no_stamps : {r : Outcome CpuTimingSocket} {v : Trace} → is_ok r ≡ false → Stamped (r, v)

  -- Before those three calls the code has waited for the answer already.
  pub data Late : Outcome CpuTimingSocket × Trace → Type 0 where
    late :
        {first peek last first' peek' last' : Reply} {u : Trace}
        → Late (
          ok (with_stamps first last),
          measuring first peek last (measuring first' peek' last' u),
        )
    no_stamps_at_all : {r : Outcome CpuTimingSocket} {v : Trace} → is_ok r ≡ false → Late (r, v)

module _ (system : System) where
  take_stamps-takes :
      (this : CpuTimingSocket) (w : Trace)
      → this.take_time_on_write ≡ true
      → (first : Reply) × (peek : Reply) × (last : Reply) × (take_stamps system this w
          ≡ (ok (with_stamps this first last), measuring this first peek last w))
  unfolding take_stamps
  take_stamps-takes this w on =
      let first = system w (clock_call this.best_timesource) in
      let v : Trace = (clock_call this.best_timesource, first) ∷ w in
      let peek = system v (recv_peek this.base.sock 1) in
      let u : Trace = (recv_peek this.base.sock 1, peek) ∷ v in
      (
        first,
        peek,
        system u (clock_call this.best_timesource),
        rw
            (
              read_time-reads system this.best_timesource w,
              on,
              read_time-reads system this.best_timesource u,
            )
            refl,
      )

  -- The stamps that follow the rest of a short send.
  after-Late :
      (this : CpuTimingSocket) {run : Outcome CpuTimingSocket × Trace}
      → this.take_time_on_write ≡ true
      → Stamped this run
      → Late this (after (take_stamps system) run.1 run.0)
  after-Late this on (stamped {first = first} {peek = peek} {last = last} {u = u}) =
      let (_, _, _, takes) =
        take_stamps-takes (with_stamps this first last) (measuring this first peek last u) on in
      rw takes late
  after-Late this on (no_stamps {r = ok that} nil) = cc
  after-Late this on (no_stamps {r = throws e} nil) = no_stamps_at_all refl
  after-Late this on (no_stamps {r = terminate} nil) = no_stamps_at_all refl
  after-Late this on (no_stamps {r = fault} nil) = no_stamps_at_all refl
  after-Late this on (no_stamps {r = out_of_fuel} nil) = no_stamps_at_all refl

  Late-Stamped :
      (this : CpuTimingSocket) {run : Outcome CpuTimingSocket × Trace}
      → Late this run
      → Stamped this run
  Late-Stamped this late = stamped
  Late-Stamped this (no_stamps_at_all nil) = no_stamps nil

  -- If CPUTimingSocket::write returns with takeTimeOnWrite set, the last three calls are a reading of
  -- the clock, a recv for one byte with MSG_PEEK and another reading, and the object's stamps are those
  -- readings, whatever short sends came before; nothing else in the object is changed.
  pub write-Stamped :
      (fuel : ℕ) (this : CpuTimingSocket) (bytes : List ℕ) (w : Trace)
      → this.take_time_on_write ≡ true
      → Stamped this (write system fuel this bytes w)
  unfolding write write_base
  write-Stamped zero this bytes w on = no_stamps refl
  write-Stamped (suc fuel) this bytes w on =
      let sock = this.base.sock in
      let reply = system w (send sock bytes) in
      let sent = reply.value in
      let w₁ : Trace = (send sock bytes, reply) ∷ w in
      elim (Bool-cases (is_established this.base.state)) [
        | inr closed ↦ rw closed (no_stamps refl)
        | inl live ↦ elim (Bool-cases (is_negative sent)) [
          | inl failed ↦ rw (live, failed) (no_stamps refl)
          | inr fine ↦ elim (Bool-cases (to_size sent == length bytes)) [
            | inl whole ↦
                let (_, _, _, takes) = take_stamps-takes this w₁ on in
                rw (live, fine, whole, takes) stamped
            | inr short ↦
                rw (live, fine, short)
                  (Late-Stamped this (
                    after-Late this on (write-Stamped fuel this (drop (to_size sent) bytes) w₁ on)))
          ]
        ]
      ]

  -- If the first send of CPUTimingSocket::write is short and it returns, with takeTimeOnWrite set, the
  -- same three calls stand once more before the last three: the clock is started after a recv has
  -- already waited for the answer.
  pub write-Late :
      (fuel : ℕ) (this : CpuTimingSocket) (bytes : List ℕ) (w : Trace)
      → this.take_time_on_write ≡ true
      → is_established this.base.state ≡ true
      → is_negative (system w (send this.base.sock bytes)).value ≡ false
      → (to_size (system w (send this.base.sock bytes)).value == length bytes) ≡ false
      → Late this (write system (suc fuel) this bytes w)
  unfolding write write_base
  write-Late fuel this bytes w on live fine short =
      rw (live, fine, short) (after-Late this on (write-Stamped fuel this _ _ on))

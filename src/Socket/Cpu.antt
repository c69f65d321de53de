-- ===== src/Socket/Cpu.antt =====
-- CPUTimingSocket.cpp: the time between a write and the first byte of the answer, by a clock of the
-- processor or the system.
pub mod Writes
pub mod Stamps
pub mod Class
pub mod Keeps
use timing_proxy.Base.{
  ℕ, zero, suc, ◌+◌, ◌-◌, ◌%◌, ◌^◌, ℤ, Bool, true, false, List, out_of_fuel, if◌then◌else◌,
}
use timing_proxy.Os.Calls.{Call, System, recv_peek}
use timing_proxy.Os.Io.{Io, ◌>>=◌, ◌>>◌, pure, end, call}
use timing_proxy.Socket.Timing.{TimingSocket, write_base, read_base}
use timing_proxy.TimeSources.{CpuFeatures, TimeSource, get_cpu_features, best_timesource, read_time}

pub record CpuTimingSocket : Type 0 where
  pub base : TimingSocket
  pub best_timesource : TimeSource
  pub cpu_features : CpuFeatures
  pub take_time_on_write : Bool
  pub write_tstamp : ℕ
  pub read_tstamp : ℕ

unfoldable pub get_last_measurement : CpuTimingSocket → ℕ
get_last_measurement this = (2 ^ 64 + this.read_tstamp - this.write_tstamp) % 2 ^ 64

module _ (system : System) where
  unfoldable pub init : TimingSocket → Io CpuTimingSocket
  unfolding best_timesource
  init base = do
    features ← get_cpu_features system
    pure (record {
      base = base;
      best_timesource = best_timesource features;
      cpu_features = features;
      take_time_on_write = true;
      write_tstamp = 0;
      read_tstamp = 0;
    })

  -- What follows `TimingSocket::write`.
  unfoldable pub take_stamps : CpuTimingSocket → Io CpuTimingSocket
  take_stamps this = do
    written ← read_time system this.best_timesource
    if this.take_time_on_write
        then (call system (recv_peek this.base.sock 1) >>= λ _.
            read_time system this.best_timesource >>= λ answered.
            pure (record this { write_tstamp = written; read_tstamp = answered }))
        else pure (record this { write_tstamp = written })

  -- The rest after a short send is written by this same method.
  unfoldable pub write : ℕ → CpuTimingSocket → List ℕ → Io CpuTimingSocket
  unfolding take_stamps
  write zero this bytes = end out_of_fuel
  write (suc fuel) this bytes =
      write_base system CpuTimingSocket.base (write fuel) this bytes >>= λ sent. take_stamps sent

  unfoldable pub read : CpuTimingSocket → ℕ → Bool → Io (CpuTimingSocket × (ℤ × List ℕ))
  read this size blocking = do
    received ← read_base system this.base size blocking
    if this.take_time_on_write
        then pure (this, received)
        else (read_time system this.best_timesource >>= λ answered.
            pure (record this { read_tstamp = answered }, received))

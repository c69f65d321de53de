-- ===== src/TimeSources/Benchmark.antt =====
-- Benchmark.cpp: what two readings of a clock cost.
pub mod Bounds
pub mod Overflow
use timing_proxy.Base.{
  ℕ, zero, suc, ◌+◌, ◌-◌, ◌/◌, ◌%◌, ◌^◌, ◌==◌, Outcome, ok, fault, if◌then◌else◌,
}
use timing_proxy.Os.Calls.{System}
use timing_proxy.Os.Io.{Io, ◌>>=◌, ◌>>◌, pure, end, io_terminate_if}
use timing_proxy.TimeSources.{TimeSource, read_time}

pub record Benchmark : Type 0 where
  pub source : TimeSource
  pub iterations : ℕ

unfoldable pub new_benchmark : TimeSource → ℕ → Io Benchmark
new_benchmark source iterations = do
  io_terminate_if (iterations == 0)
  pure (record { source = source; iterations = iterations })

-- `i++` on the `int` of the loop.
abbrev pub count_round : ℕ → Outcome (Unit {0})
count_round i = if i == 2147483647 then fault else ok tt

module _ (system : System) where
  -- The `for`, with the rounds that are left and the values of `i` and `result`.
  unfoldable pub measure : TimeSource → ℕ → ℕ → ℕ → Io ℕ
  measure source zero i result = pure result
  measure source (suc rounds) i result = do
    before ← read_time system source
    later ← read_time system source
    let time = (2 ^ 64 + later - before) % 2 ^ 64
    end (count_round i)
    measure source rounds (suc i) ((result + time) % 2 ^ 64)

  unfoldable pub overhead : Benchmark → Io ℕ
  overhead this = do
    result ← measure this.source this.iterations 0 0
    pure (result / this.iterations)

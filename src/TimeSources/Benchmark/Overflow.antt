-- ===== src/TimeSources/Benchmark/Overflow.antt =====
-- Benchmark::overhead with more rounds than its counter can count.
use timing_proxy.TimeSources.Benchmark.{Benchmark}

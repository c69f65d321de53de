-- ===== src/TimeSources/Tests.antt =====
-- A clock for the benchmark, and the processor's answers.
use timing_proxy.Base.{ℕ, ◌+◌, ◌-◌, ◌*◌, ◌/◌, ◌^◌, ◌≤◌, ◌≡◌, refl, min, arith, pos, true, [], ok}
use timing_proxy.Os.Calls.{Trace, System, cpuid, no_message}
use timing_proxy.TimeSources.{
  timestamp_counter, read_time, read_tsc, has_rdtscp, has_invariant_tsc, has_constant_tsc,
  processor_base_clock, get_cpu_features,
}
use timing_proxy.TimeSources.Readings.{last_reading, IsMonotone}
use timing_proxy.TimeSources.Benchmark.{Benchmark, measure, overhead}
use timing_proxy.TimeSources.Benchmark.Bounds.{Spent, overhead-Measured}

-- Each reading is 3 after the one before. CPUID sets bit 27 alone of edx, and has no level 16h.
abbrev ticking : System
ticking w c = record {
  value = pos 0;
  bytes = [];
  events = 0;
  candidates = [];
  tv_sec = 0;
  tv_nsec = 0;
  eax = min (last_reading timestamp_counter w + 3) (2 ^ 64 - 1);
  edx = 0;
  errno = 0;
  message = no_message;
  tx_type = 0;
  rx_filter = 0;
}

ticking-IsMonotone : IsMonotone ticking timestamp_counter
ticking-IsMonotone w fits = (omega arith, omega arith)

abbrev ten_rounds : Benchmark
ten_rounds = record { source = timestamp_counter; iterations = 10 }

overhead-ticking : (overhead ticking ten_rounds []).0 ≡ ok 3
unfolding overhead measure read_time read_tsc
overhead-ticking = refl

overhead-Measured_example :
    (total : ℕ) × (v : Trace) × (overhead ticking ten_rounds [] ≡ (ok (total / 10), v))
    × Spent timestamp_counter [] 10 total v
    × (total / 10 * 10 + 0 ≤ last_reading timestamp_counter v)
overhead-Measured_example =
    overhead-Measured ticking timestamp_counter ticking-IsMonotone ten_rounds [] (omega arith) refl
      (omega arith) (omega arith)

abbrev too_many_rounds : Benchmark
too_many_rounds = record { source = timestamp_counter; iterations = 2147483648 }

-- A processor with the bits 27 and 8 set in edx and 2000 MHz.
abbrev processor : System
processor w (cpuid level) = record (ticking w (cpuid level)) { eax = 2000; edx = 134217984 }
processor w c = ticking w c

get_cpu_features-processor :
    (get_cpu_features processor []).0
    ≡ ok (record {
      processor_base_clock_hz = 2000000000;
      invariant_tsc = true;
      constant_tsc = true;
      rdtscp = true;
    })
unfolding get_cpu_features has_rdtscp has_invariant_tsc has_constant_tsc processor_base_clock
    read_tsc
get_cpu_features-processor = refl

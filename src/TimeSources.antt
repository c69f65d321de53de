-- ===== src/TimeSources.antt =====
-- TimeSources.cpp, as it is built for Linux on x86-64 without DISABLE_RDTSCP, and Benchmark.cpp.
pub mod Readings
pub mod Benchmark
mod Tests
use Prim.Native.Nat.{bit_and}
use timing_proxy.Base.{
  ℕ, ◌+◌, ◌*◌, ◌-◌, ◌%◌, ◌^◌, Bool, true, false, not, ◌&&◌, ◌||◌, List, [], ◌∷◌, leb, ◌==◌,
  if◌then◌else◌,
}
use timing_proxy.Os.Calls.{Call, System, cpuid, rdtsc, clock_gettime, sleep_s, read_cpuinfo}
use timing_proxy.Os.Io.{Io, ◌>>=◌, ◌>>◌, pure, call}

pub record CpuFeatures : Type 0 where
  pub processor_base_clock_hz : ℕ
  pub invariant_tsc : Bool
  pub constant_tsc : Bool
  pub rdtscp : Bool

pub data TimeSource : Type 0 where
  timestamp_counter os_time : TimeSource

-- `1 << 27` and `1 << 8`
abbrev pub bit27 : ℕ
bit27 = 134217728

abbrev pub bit8 : ℕ
bit8 = 256

-- "constant_tsc"
abbrev pub constant_tsc_name : List ℕ
constant_tsc_name = 99 ∷ 111 ∷ 110 ∷ 115 ∷ 116 ∷ 97 ∷ 110 ∷ 116 ∷ 95 ∷ 116 ∷ 115 ∷ 99 ∷ []

abbrev pub starts_with : List ℕ → List ℕ → Bool
starts_with [] text = true
starts_with (x ∷ xs) [] = false
starts_with (x ∷ xs) (y ∷ ys) = (x == y) && starts_with xs ys

-- `text.find(word) != npos`
abbrev pub found_in : List ℕ → List ℕ → Bool
found_in word [] = starts_with word []
found_in word (y ∷ ys) = starts_with word (y ∷ ys) || found_in word ys

module _ (system : System) where
  unfoldable pub read_tsc : Io ℕ
  read_tsc = do r ← call system rdtsc; pure (r.edx * 2 ^ 32 + r.eax)

  unfoldable pub unix_time : Io ℕ
  unix_time = do
    ts ← call system clock_gettime
    pure ((ts.tv_sec * 1000000000 + ts.tv_nsec) % 2 ^ 64)

  -- A call through the pointer that best_timesource gives.
  unfoldable pub read_time : TimeSource → Io ℕ
  unfolding read_tsc unix_time
  read_time timestamp_counter = read_tsc
  read_time os_time = unix_time

  unfoldable pub has_rdtscp : Io Bool
  has_rdtscp = do
    registers ← call system (cpuid 0x80000001)
    pure (not (bit_and bit27 registers.edx == 0))

  unfoldable pub has_invariant_tsc : Io Bool
  has_invariant_tsc = do
    registers ← call system (cpuid 0x80000007)
    pure (not (bit_and bit8 registers.edx == 0))

  unfoldable pub has_constant_tsc : Io Bool
  unfolding has_invariant_tsc
  has_constant_tsc = do
    invariant ← has_invariant_tsc
    if invariant
        then pure true
        else (call system read_cpuinfo >>= λ file. pure (found_in constant_tsc_name file.bytes))

  unfoldable pub processor_base_clock : Io ℕ
  unfolding read_tsc
  processor_base_clock = do
    levels ← call system (cpuid 0x0)
    if leb 0x16 levels.eax
        then (call system (cpuid 0x16) >>= λ frequency. pure (frequency.eax * 1000000))
        else (read_tsc >>= λ before. call system (sleep_s 1) >>= λ _. read_tsc >>= λ later.
            (let time = (2 ^ 64 + later - before) % 2 ^ 64 in pure (time - time % 100000000)))

  unfoldable pub get_cpu_features : Io CpuFeatures
  unfolding has_rdtscp has_invariant_tsc has_constant_tsc processor_base_clock
  get_cpu_features = do
    invariant ← has_invariant_tsc
    constant ← has_constant_tsc
    tscp ← has_rdtscp
    hz ← processor_base_clock
    pure (record {
      processor_base_clock_hz = hz;
      invariant_tsc = invariant;
      constant_tsc = constant;
      rdtscp = tscp;
    })

unfoldable pub best_timesource : CpuFeatures → TimeSource
best_timesource features =
    if features.constant_tsc && features.rdtscp then timestamp_counter else os_time

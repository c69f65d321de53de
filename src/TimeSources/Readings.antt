-- ===== src/TimeSources/Readings.antt =====
-- What a reading of a clock is in the calls made.
use timing_proxy.Base.{ℕ, ◌+◌, ◌*◌, ◌%◌, ◌^◌, ◌≤◌, ◌<◌, ◌≡◌, refl, [], ◌∷◌, ok}
use timing_proxy.Os.Calls.{Call, Reply, Trace, System, rdtsc, clock_gettime}
use timing_proxy.TimeSources.{
  TimeSource, timestamp_counter, os_time, read_time, read_tsc, unix_time,
}

-- The instruction or call that reads a clock, and what it says.
abbrev pub clock_call : TimeSource → Call
clock_call timestamp_counter = rdtsc
clock_call os_time = clock_gettime

abbrev pub clock_value : TimeSource → Reply → ℕ
clock_value timestamp_counter reply = reply.edx * 2 ^ 32 + reply.eax
clock_value os_time reply = (reply.tv_sec * 1000000000 + reply.tv_nsec) % 2 ^ 64

-- The latest reading, 0 before the first one.
abbrev pub last_reading : TimeSource → Trace → ℕ
last_reading source [] = 0
last_reading timestamp_counter ((rdtsc, reply) ∷ w) = clock_value timestamp_counter reply
last_reading os_time ((clock_gettime, reply) ∷ w) = clock_value os_time reply
last_reading source (_ ∷ w) = last_reading source w

pub last_reading-clock :
    (source : TimeSource) (reply : Reply) (w : Trace)
    → last_reading source ((clock_call source, reply) ∷ w) ≡ clock_value source reply
last_reading-clock timestamp_counter reply w = refl
last_reading-clock os_time reply w = refl

-- The clock fits in 64 bits and does not go back: after readings that fit.
abbrev pub IsMonotone : System → TimeSource → Type 0
IsMonotone system source =
    (w : Trace)
    → let now = clock_value source (system w (clock_call source)) in
      last_reading source w < 2 ^ 64 → (last_reading source w ≤ now) × (now < 2 ^ 64)

module _ (system : System) where
  pub read_time-reads :
      (source : TimeSource) (w : Trace)
      → read_time system source w ≡ (
        ok (clock_value source (system w (clock_call source))),
        (clock_call source, system w (clock_call source)) ∷ w,
      )
  unfolding read_time read_tsc unix_time
  read_time-reads timestamp_counter w = refl
  read_time-reads os_time w = refl

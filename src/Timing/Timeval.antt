-- ===== src/Timing/Timeval.antt =====
-- `timevalDeltaToNs` of PcapWrapper/PcapLoopCallback.cpp. The stamps that libpcap gives are not
-- negative, so a `time_t` is a natural number.
use timing_proxy.Base.{
  ℕ, ◌+◌, ◌-◌, ◌*◌, ◌%◌, ◌^◌, ◌&&◌, Outcome, ok, terminate, ◌>>=◌, ◌>>◌, terminate_if, ltb, ◌==◌,
  if◌then◌else◌,
}

-- At nanosecond precision `tv_usec` counts nanoseconds.
pub record Timeval : Type 0 where
  pub tv_sec : ℕ
  pub tv_usec : ℕ

-- PCAP_TSTAMP_PRECISION_MICRO and PCAP_TSTAMP_PRECISION_NANO of pcap.h.
abbrev pub precision_micro : ℕ
precision_micro = 0

abbrev pub precision_nano : ℕ
precision_nano = 1

usecs_per_second : ℕ → Outcome ℕ
usecs_per_second tstamp_precision =
    if tstamp_precision == precision_micro
    then ok 1000000
    else if tstamp_precision == precision_nano
    then ok 1000000000
    else terminate

-- The two `return` statements; `uint64_t` arithmetic wraps.
to_ns : ℕ → ℕ → ℕ → Outcome ℕ
to_ns tstamp_precision seconds usecs =
    if tstamp_precision == precision_micro
    then ok ((seconds * 1000000000 + usecs * 1000) % 2 ^ 64)
    else if tstamp_precision == precision_nano
    then ok ((seconds * 1000000000 + usecs) % 2 ^ 64)
    else terminate

unfoldable pub timeval_delta_to_ns : ℕ → Timeval → Timeval → Outcome ℕ
unfolding usecs_per_second to_ns
timeval_delta_to_ns tstamp_precision tv_early tv_late = do
  per_second ← usecs_per_second tstamp_precision
  terminate_if (ltb tv_late.tv_sec tv_early.tv_sec)
  let seconds = tv_late.tv_sec - tv_early.tv_sec
  let borrows = ltb tv_late.tv_usec tv_early.tv_usec
  terminate_if (borrows && (seconds == 0))
  to_ns tstamp_precision (if borrows then seconds - 1 else seconds)
      ((tv_late.tv_usec + (if borrows then per_second else 0) + 2 ^ 64 - tv_early.tv_usec) % 2 ^ 64)

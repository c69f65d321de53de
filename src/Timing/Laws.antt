-- ===== src/Timing/Laws.antt =====
-- Both differences against the exact one.
use timing_proxy.Base.{
  ℕ, ◌+◌, ◌-◌, ◌*◌, ◌^◌, ◌<◌, ◌≤◌, ◌≡◌, ◌⊎◌, inl, inr, ok, terminate, arith, ◌==◌, if◌then◌else◌,
}
use timing_proxy.Timing.Timeval.{Timeval, timeval_delta_to_ns, precision_micro, precision_nano}
use timing_proxy.Timing.Timespec.{Timespec, timespec_diff}

-- The nanoseconds in one unit of `tv_usec`, and the units in a second.
abbrev pub unit_ns : ℕ → ℕ
unit_ns precision = if precision == precision_micro then 1000 else 1

abbrev pub units : ℕ → ℕ
units precision = if precision == precision_micro then 1000000 else 1000000000

abbrev pub ns : ℕ → Timeval → ℕ
ns precision t = t.tv_sec * 1000000000 + t.tv_usec * unit_ns precision

-- At either precision of libpcap, with normalised stamps that fit 64 bits of nanoseconds,
-- `timevalDeltaToNs` returns the exact difference if the stamps are in order, and calls
-- std::terminate if they are not.
pub timeval_delta_to_ns-exact :
    (precision : ℕ) (early late : Timeval)
    → (precision ≡ precision_micro) ⊎ (precision ≡ precision_nano)
    → early.tv_usec < units precision
    → late.tv_usec < units precision
    → ns precision late < 2 ^ 64
    → (ns precision early ≤ ns precision late
        → timeval_delta_to_ns precision early late ≡ ok (ns precision late - ns precision early))
      × (ns precision late < ns precision early
          → timeval_delta_to_ns precision early late ≡ terminate)
unfolding timeval_delta_to_ns
timeval_delta_to_ns-exact precision early late (inl e) h k small = rw e (ground arith)
timeval_delta_to_ns-exact precision early late (inr e) h k small = ground arith

abbrev pub timespec_ns : Timespec → ℕ
timespec_ns t = t.tv_sec * 1000000000 + t.tv_nsec

-- With normalised stamps that fit 64 bits of nanoseconds `timespecDiff` returns the exact
-- difference if the stamps are in order, and calls std::terminate if they are not.
pub timespec_diff-exact :
    (after before : Timespec)
    → after.tv_nsec < 1000000000
    → before.tv_nsec < 1000000000
    → timespec_ns after < 2 ^ 64
    → (timespec_ns before ≤ timespec_ns after
        → timespec_diff after before ≡ ok (timespec_ns after - timespec_ns before))
      × (timespec_ns after < timespec_ns before → timespec_diff after before ≡ terminate)
unfolding timespec_diff
timespec_diff-exact after before h k small = ground arith

-- A capture's stamp as a kernel's, at nanosecond precision.
abbrev pub as_timespec : Timeval → Timespec
as_timespec t = record { tv_sec = t.tv_sec; tv_nsec = t.tv_usec }

-- At nanosecond precision `timevalDeltaToNs` and `timespecDiff`, which are written independently,
-- agree on every two stamps whose nanoseconds are below a second, also where the result wraps round or
-- the stamps are out of order.
pub timeval_delta_to_ns-timespec_diff :
    (early late : Timeval)
    → early.tv_usec < 1000000000
    → late.tv_usec < 1000000000
    → timeval_delta_to_ns precision_nano early late
      ≡ timespec_diff (as_timespec late) (as_timespec early)
unfolding timeval_delta_to_ns timespec_diff
timeval_delta_to_ns-timespec_diff early late h k = ground arith

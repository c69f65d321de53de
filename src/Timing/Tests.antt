-- ===== src/Timing/Tests.antt =====
-- The theorems of the time differences at the ends of their branches.
use timing_proxy.Base.{◌<◌, ◌≤◌, ◌≡◌, refl, inl, ok, terminate, arith}
use timing_proxy.Timing.Timeval.{Timeval, timeval_delta_to_ns}
use timing_proxy.Timing.Timespec.{Timespec, timespec_diff}
use timing_proxy.Timing.Laws.{
  as_timespec, timeval_delta_to_ns-timespec_diff, ns, timespec_ns, timeval_delta_to_ns-exact,
  timespec_diff-exact,
}

abbrev early : Timeval
early = record { tv_sec = 1; tv_usec = 999999 }

abbrev late : Timeval
late = record { tv_sec = 3; tv_usec = 1 }

borrows : timeval_delta_to_ns 0 early late ≡ ok 1000002000
unfolding timeval_delta_to_ns
borrows = refl

timeval_delta_to_ns-exact_example :
    (ns 0 early ≤ ns 0 late → timeval_delta_to_ns 0 early late ≡ ok 1000002000)
    × (ns 0 late < ns 0 early → timeval_delta_to_ns 0 early late ≡ terminate)
timeval_delta_to_ns-exact_example =
    timeval_delta_to_ns-exact 0 early late (inl refl) (omega arith) (omega arith) (omega arith)

abbrev before : Timespec
before = record { tv_sec = 1; tv_nsec = 999999999 }

abbrev after : Timespec
after = record { tv_sec = 2; tv_nsec = 1 }

timespec_diff-exact_example :
    (timespec_ns before ≤ timespec_ns after → timespec_diff after before ≡ ok 2)
    × (timespec_ns after < timespec_ns before → timespec_diff after before ≡ terminate)
timespec_diff-exact_example =
    timespec_diff-exact after before (omega arith) (omega arith) (omega arith)

timeval_delta_to_ns-timespec_diff_example :
    timeval_delta_to_ns 1 early late ≡ timespec_diff (as_timespec late) (as_timespec early)
timeval_delta_to_ns-timespec_diff_example =
    timeval_delta_to_ns-timespec_diff early late (omega arith) (omega arith)

-- ===== src/Timing/Timespec.antt =====
-- `timespecDiff` of KernelTimingSocket.cpp. Kernel time stamps are not negative, so a `time_t` is a
-- natural number.
use timing_proxy.Base.{
  ℕ, ◌+◌, ◌-◌, ◌*◌, ◌%◌, ◌^◌, ◌&&◌, ◌||◌, Outcome, ok, ◌>>◌, terminate_if, ltb, ◌==◌, if◌then◌else◌,
}

pub record Timespec : Type 0 where
  pub tv_sec : ℕ
  pub tv_nsec : ℕ

unfoldable pub timespec_diff : Timespec → Timespec → Outcome ℕ
timespec_diff after before = do
  terminate_if (
      ltb after.tv_sec before.tv_sec
      || ((after.tv_sec == before.tv_sec) && ltb after.tv_nsec before.tv_nsec))
  let borrows = ltb after.tv_nsec before.tv_nsec
  let after_nsec = if borrows then after.tv_nsec + 1000000000 else after.tv_nsec
  let sec_diff = if borrows then after.tv_sec - before.tv_sec - 1 else after.tv_sec - before.tv_sec
  ok ((sec_diff * 1000000000 + (after_nsec - before.tv_nsec)) % 2 ^ 64)

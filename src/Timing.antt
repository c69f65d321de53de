-- ===== src/Timing.antt =====
-- The differences of two time stamps, in nanoseconds.
pub mod Timeval
pub mod Timespec
pub mod Laws
pub mod Tests

-- ===== src/Os.antt =====
-- The operating system as the sockets see it.
pub mod Calls
pub mod Io
pub mod Triples
pub mod Descriptors

-- ===== src/Programs.antt =====
-- The programs of the repository: src/main.cpp, and the client and the server of a measurement.
pub mod Options
pub mod Proxy
pub mod Helper
pub mod Client
pub mod Csv
pub mod Server
mod Tests

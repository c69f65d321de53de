-- ===== src/Socket.antt =====
-- src/Socket: the sockets, over the system calls of Os.
pub mod Epoll
pub mod Timing
pub mod Server
pub mod Cpu
pub mod Kernel
pub mod Pcap
pub mod Any
pub mod Laws
pub mod Stream
pub mod Tests

-- ===== src/Pcap/Queue.antt =====
-- What the two shared buffers promise: a queue of packets, the oldest first.
pub mod Slices
pub mod View
pub mod Push
pub mod Pop
pub mod Search
pub mod Deliver
pub mod Settings
pub mod Brought
pub mod Answers
pub mod Race
pub mod Threads
pub mod Frames

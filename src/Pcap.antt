-- ===== src/Pcap.antt =====
-- src/PcapWrapper: the capture thread's callback, and the reader that looks for a packet.
pub mod Packets
pub mod UserData
pub mod Callback
pub mod Reader
pub mod Open
pub mod Queue
pub mod Tests

-- ===== src/Packet.antt =====
-- src/PacketParser: the header parsers of a captured frame, from Ethernet to TCP and UDP.
pub mod Memory
pub mod Types
pub mod Wire
pub mod Tcp
pub mod Udp
pub mod Ipv4
pub mod Ipv6
pub mod Ethernet
pub mod Tests
mod ChainTests

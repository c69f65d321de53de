-- ===== src/Lib.antt =====
-- Timing-Proxy measures how long a server takes to answer, from behind a proxy. This library models
-- the proxy, its sockets and clocks, its packet parsers, its capture buffers and the arithmetic of its
-- time stamps.
--
-- How the parts interact. The capture thread of libpcap calls `handlePacket` for every packet that
-- passes the filter. It decodes the frame down to TCP with the parsers of src/PacketParser and stores
-- the payload, the time and the direction in one of two shared buffers. The measuring thread calls
-- `timingForPacket` after it has sent or received some bytes: it reads the buffers in order until it
-- finds those bytes, and returns their time stamp. The difference of two stamps is the measurement.
--
-- The proxy (`TimingProxy`) accepts a control connection, reads the server's name and port from it,
-- connects to the server with a timing socket and passes bytes in both directions; after each answer
-- it reports the measurement of the timing socket on the control connection. The timing socket takes
-- its stamps from a clock (CPUTimingSocket), from the kernel (KernelTimingSocket) or from a capture.
--
-- Three programs stand around this: the proxy itself (main.cpp), a client that measures a server
-- without the proxy and writes its samples to a file, and a server whose answers take a chosen time.
--
-- Which file models which part.
-- - Base: the library names that all modules share, lists over native numbers, Boolean tests, and how
--   a C++ call ends (Base/Outcomes): with a value, with a standard exception, in std::terminate (a
--   `throw;` with no exception in flight), outside the memory that it owns (`fault`), or not within the
--   rounds given (`out_of_fuel`). Base/Runs has the triples for runs that neither fault nor spin.
-- - Packet/Memory and Packet/Types: the bytes of a capture, loads in the byte order of x86, ntohs and
--   ntohl, the class PacketParser and the struct Artefacts (src/PacketParser/PacketParser.h,
--   src/PacketParser/Artefacts). A pointer is an offset into the bytes, or null.
-- - Packet/Ethernet, Packet/Ipv4, Packet/Ipv6, Packet/Tcp, Packet/Udp: `parseHeader` and `decodeUntil`
--   of the five parsers, as `parse_header` and `decode_until`; `decode_packet` is
--   `PacketParser::decodeUntil`. The child Bounds of each has what it reads, the child Wire that it
--   reads back headers as Packet/Wire prints them from the RFCs.
-- - Timing/Timeval and Timing/Timespec: `timevalDeltaToNs` (src/PcapWrapper/PcapLoopCallback.cpp) and
--   `timespecDiff` (src/Socket/ClientSocket/TimingSocket/KernelTimingSocket/KernelTimingSocket.cpp).
-- - Pcap/Packets, Pcap/UserData, Pcap/Callback: PacketInfo, UserData and `handlePacket`
--   (src/PcapWrapper/PcapLoopCallback.cpp).
-- - Pcap/Reader: `timingForPacket`, `startLoop`, `stopLoop`, `getPrecision`
--   (src/PcapWrapper/PcapWrapper.cpp).
-- - Pcap/Open: the constructors of PcapWrapper, `open`, `close`, `setFilter`, and the wrappers of
--   `startLoop` and `stopLoop`; a filter is an expression.
-- - Pcap/Queue: the abstract queue of packets, and both sides of the buffers against it. Pcap/Queue/Threads
--   has the two threads as one relation, a write of the callback or a round of the reader at a time.
--   Pcap/Queue/Brought says what a packet from libpcap adds to the queue.
-- - Os: system calls. A parameter, the system, answers a call from the calls made before it; code that
--   makes calls is a function from the calls made to an outcome and the calls made by then. Os/Triples
--   has the triples for such code, Os/Descriptors the descriptors that are open.
-- - Socket/Epoll, Socket/Server, Socket/Timing, Socket/Cpu, Socket/Kernel, Socket/Pcap:
--   Socket/Socket.cpp and the classes ServerSocket, TimingSocket, CPUTimingSocket, KernelTimingSocket
--   and PCAPTimingSocket below src/Socket. A method takes the object and returns it; `write_base` is
--   `TimingSocket::write`, whose virtual call for the rest after a short send is an argument.
--   Socket/Stream is what the peer receives. Socket/Any is `createTimingSocket` and the virtual calls
--   on what it makes. Socket/Laws says what the proxy relies on in a class of timing
--   sockets, and the modules named Keeps are about it.
-- - TimeSources and TimeSources/Benchmark: src/TimeSources and src/Benchmark, for Linux on x86-64. The
--   counter of Benchmark's loop is an int, whose overflow is a `fault`.
-- - Proxy, Proxy/Text: src/TimingProxy. The virtual methods of the timing socket are a record,
--   SocketClass, which Socket/Cpu/Class and Socket/Any fill. Proxy/Keeps and Proxy/Descriptors have what
--   handleClient does to the open descriptors, Proxy/Ending how its loop ends. Proxy/Interface is
--   `setInterface`, and Proxy/Kinds compares it with the class of the socket.
-- - Programs: src/main.cpp (Programs/Proxy), src/TestClient/main.cpp (Programs/Client, and
--   Programs/Csv for its file), src/TestServer/main.cpp (Programs/Server) and src/helper/helper.h
--   (Programs/Helper), after the options are parsed. Programs/Client/Exchanges describes a measurement
--   as a relation, independently of the loops.
-- - The modules named Tests and ChainTests run the models, on the frames of tests/PacketParserTest
--   among others, and apply the theorems to concrete inputs.
--
-- Bounds and fuel. The loop over IPv6 extension headers gets the payload's size as fuel: each round
-- takes at least 8 bytes off it. `timingForPacket` turns until it finds its packet, so it takes a
-- schedule instead: for each round the packets that the capture thread stores before it. `size_t` and
-- `uint64_t` arithmetic is taken modulo 2 ^ 64. Time stamps are not negative.
--
-- A `write` gets fuel for the calls that follow short sends, and one more than there are bytes is
-- enough. `getline`, `handleClient` and `run` turn as long as their peers do, and get a number of
-- rounds. The loops of `connect` and `getTxTimestamp` count to 100 and 1000 themselves.
--
-- Not modelled: boost::program_options, which parses the options, and the random engine, whose draws
-- are a parameter; the functions of src/helper that only call the library; TimeSources::clock.
-- `inet_ntop` of the C library and `native_to_big` of Boost are parameters. Text that is logged is
-- left out, and an exception keeps only the constant part of its text. A method that throws leaves its
-- object as it was before.
pub mod Base
pub mod Packet
pub mod Timing
pub mod Pcap
pub mod Os
pub mod Socket
pub mod TimeSources
pub mod Proxy
pub mod Programs

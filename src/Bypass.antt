-- ===== src/Bypass.antt =====
-- The local proxy in C++ beside the engine: dpi-bypass.cpp, socket.cpp, packet.cpp, dns.cpp and
-- hostlist.cpp.
pub mod Socket
pub mod Packet
pub mod Proxy
pub mod Resolve
pub mod Remote
pub mod Service

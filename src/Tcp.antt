-- ===== src/Tcp.antt =====
-- tcp.c: the TCP sessions between the tun device and the sockets.
pub mod Types
pub mod Windows
pub mod Write
pub mod Queue
pub mod Options
pub mod Open
pub mod Register
pub mod Incoming
pub mod Check
pub mod Handle
pub mod Packet
pub mod Socket

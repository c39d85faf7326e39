-- ===== src/Socks.antt =====
-- The SOCKS5 codec and handshakes (socks.go).
pub mod Conn
pub mod Address
pub mod Auth
pub mod Datagram
pub mod Packets

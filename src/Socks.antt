-- ===== src/Socks.antt =====
-- The SOCKS4 server: nctu_np_project4/socks_server.cpp.
pub mod Request
pub mod Firewall
pub mod Relay
pub mod Session

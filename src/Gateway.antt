-- ===== src/Gateway.antt =====
-- src/gateway: the SOCKS handshakes and the reservations of privacy contexts.
pub mod Stream
pub mod Socks
pub mod SessionCache
mod Examples

-- ===== src/Socks4.antt =====
-- crates/shadowsocks-service/src/local/socks/socks4.rs: SOCKS4 and SOCKS4a.
pub mod Command
pub mod ResultCode
pub mod Error
pub mod Address
pub mod HandshakeRequest
pub mod HandshakeResponse

-- ===== src/Socks5.antt =====
-- crates/shadowsocks/src/relay/socks5.rs (RFC 1928, RFC 1929).
pub mod Command
pub mod Reply
pub mod Error
pub mod Address
pub mod TcpRequestHeader
pub mod TcpResponseHeader
pub mod UdpAssociateHeader
pub mod HandshakeRequest
pub mod HandshakeResponse
pub mod PasswdAuthRequest
pub mod PasswdAuthResponse

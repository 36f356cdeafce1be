-- ===== src/ProxyStream.antt =====
-- crates/shadowsocks/src/relay/tcprelay/proxy_stream: streams that start with the address of the target.
pub mod Protocol
pub mod Client
pub mod Server

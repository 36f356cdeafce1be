-- ===== src/UdpRelay.antt =====
-- crates/shadowsocks/src/relay/udprelay: the packets of the UDP relay.
pub mod Aead
pub mod Stream
pub mod Aead2022

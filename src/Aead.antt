-- ===== src/Aead.antt =====
-- The AEAD protocol: crates/shadowsocks/src/relay/tcprelay/aead.rs for streams, and what it stands on.
pub mod Async
pub mod Cipher
pub mod Transport
pub mod Wire
pub mod Reader
pub mod Writer
pub mod EndToEnd

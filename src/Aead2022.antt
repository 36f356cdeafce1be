-- ===== src/Aead2022.antt =====
-- AEAD 2022: crates/shadowsocks/src/relay/tcprelay/aead_2022.rs and udprelay/aead_2022.rs.
pub mod Identity
pub mod Header
pub mod Connection
pub mod Handshake
pub mod Reader
pub mod Wire
pub mod Writer
pub mod EndToEnd
pub mod Replays

-- ===== src/Replay.antt =====
-- crates/shadowsocks/src/security/replay: the detection of repeated nonces.
pub mod PingPongBloom
pub mod ReplayProtector

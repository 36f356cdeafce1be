-- ===== src/Examples.antt =====
-- The theorems at concrete inputs, and runs of the code.
mod Socks5
mod Socks4
mod PacketWindow
mod Acl
mod Manager
mod Replay
mod Aead
mod Context
mod Aead2022
mod ProxyStream
mod StreamCipher
mod UdpRelay

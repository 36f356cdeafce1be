-- ===== src/Socks4/Address.antt =====
-- `enum Address` of crates/shadowsocks-service/src/local/socks/socks4.rs.
use mobile_android_obfuscati.Common.{ℕ, List}
use mobile_android_obfuscati.Net.{SocketAddr, SocketAddrV4}
use mobile_android_obfuscati.Socks5

pub data Address : Type 0 where
  socket_address : SocketAddrV4 → Address
  domain_name_address : List ℕ → ℕ → Address

-- `impl From<Address> for socks5::Address`
unfoldable pub to_socks5 : Address → Socks5.Address.Address
to_socks5 (Address.socket_address a) = Socks5.Address.Address.socket_address (SocketAddr.v4 a)
to_socks5 (Address.domain_name_address d p) = Socks5.Address.Address.domain_name_address d p

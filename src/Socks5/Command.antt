-- ===== src/Socks5/Command.antt =====
-- `enum Command` of crates/shadowsocks/src/relay/socks5.rs.
pub mod Codes
use mobile_android_obfuscati.Common.{ℕ, ◌==◌, if◌then◌else◌, Option, none, some}

abbrev tcp_connect_code : ℕ
tcp_connect_code = 0x01

abbrev tcp_bind_code : ℕ
tcp_bind_code = 0x02

abbrev udp_associate_code : ℕ
udp_associate_code = 0x03

pub data Command : Type 0 where
  tcp_connect tcp_bind udp_associate : Command

unfoldable pub as_u8 : Command → ℕ
as_u8 Command.tcp_connect = tcp_connect_code
as_u8 Command.tcp_bind = tcp_bind_code
as_u8 Command.udp_associate = udp_associate_code

unfoldable pub from_u8 : ℕ → Option Command
from_u8 code =
    if code == tcp_connect_code
    then some Command.tcp_connect
    else if code == tcp_bind_code
    then some Command.tcp_bind
    else if code == udp_associate_code
    then some Command.udp_associate
    else none

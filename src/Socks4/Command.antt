-- ===== src/Socks4/Command.antt =====
-- `enum Command` of crates/shadowsocks-service/src/local/socks/socks4.rs.
use mobile_android_obfuscati.Common.{ℕ, ◌==◌, if◌then◌else◌, Option, none, some}

pub data Command : Type 0 where
  connect bind : Command

unfoldable pub as_u8 : Command → ℕ
as_u8 Command.connect = 1
as_u8 Command.bind = 2

unfoldable pub from_u8 : ℕ → Option Command
from_u8 code =
    if code == 1 then some Command.connect else if code == 2 then some Command.bind else none

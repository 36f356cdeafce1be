-- ===== src/Manager/AddRequest.antt =====
-- `ServerConfig`, the `add` request, of crates/shadowsocks/src/manager/protocol.rs.
use mobile_android_obfuscati.Common.{ℕ, Bool, List, Option, Result}
use mobile_android_obfuscati.Manager.Protocol.{
  Error, Json, ServerUserConfig, read_command, write_command,
}
use mobile_android_obfuscati.Common.Strings.{bytes}

pub record ServerConfig : Type 0 where
  pub server_port : ℕ
  pub password : List ℕ
  pub method : Option (List ℕ)
  pub no_delay : Option Bool
  pub plugin : Option (List ℕ)
  pub plugin_opts : Option (List ℕ)
  pub plugin_mode : Option (List ℕ)
  pub mode : Option (List ℕ)
  pub users : Option (List ServerUserConfig)

unfoldable pub from_bytes : Json ServerConfig → List ℕ → Result Error ServerConfig
unfolding read_command
from_bytes j buf = read_command j (bytes "add") buf

unfoldable pub to_bytes : Json ServerConfig → ServerConfig → Result Error (List ℕ)
unfolding write_command
to_bytes j req = write_command j (bytes "add") req

-- ===== src/Manager/RemoveRequest.antt =====
-- `RemoveRequest` of crates/shadowsocks/src/manager/protocol.rs.
use mobile_android_obfuscati.Common.{ℕ, List, Result}
use mobile_android_obfuscati.Manager.Protocol.{Error, Json, read_command, write_command}
use mobile_android_obfuscati.Common.Strings.{bytes}

pub record RemoveRequest : Type 0 where
  pub server_port : ℕ

unfoldable pub from_bytes : Json RemoveRequest → List ℕ → Result Error RemoveRequest
unfolding read_command
from_bytes j buf = read_command j (bytes "remove") buf

unfoldable pub to_bytes : Json RemoveRequest → RemoveRequest → Result Error (List ℕ)
unfolding write_command
to_bytes j req = write_command j (bytes "remove") req

-- ===== src/Manager/PingResponse.antt =====
-- `PingResponse` of crates/shadowsocks/src/manager/protocol.rs.
use mobile_android_obfuscati.Common.{ℕ, List, Result}
use mobile_android_obfuscati.Manager.Protocol.{Error, Json, read_command, write_command}
use mobile_android_obfuscati.Common.Strings.{bytes}

-- The statistics, a `HashMap<u16, u64>`, are a type of which only the JSON is used.
module _ {Stat : Type 0} where
  unfoldable pub from_bytes : Json Stat → List ℕ → Result Error Stat
  unfolding read_command
  from_bytes j buf = read_command j (bytes "stat") buf

  unfoldable pub to_bytes : Json Stat → Stat → Result Error (List ℕ)
  unfolding write_command
  to_bytes j stat = write_command j (bytes "stat") stat

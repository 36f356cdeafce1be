-- ===== src/Manager/PingRequest.antt =====
-- `PingRequest` of crates/shadowsocks/src/manager/protocol.rs.
use mobile_android_obfuscati.Common.{ℕ, List, if◌then◌else◌, Result, ok, err, ◌>>=◌}
use mobile_android_obfuscati.Common.Strings.{str_eq}
use mobile_android_obfuscati.Manager.Protocol.{Error, from_utf8}
use mobile_android_obfuscati.Common.Strings.{bytes}

pub data PingRequest : Type 0 where
  request : PingRequest

unfoldable pub from_bytes : List ℕ → Result Error PingRequest
from_bytes buf = from_utf8 buf >>= λ cmd.
    if str_eq cmd (bytes "ping")
    then ok PingRequest.request
    else err (Error.unrecognized_command cmd)

unfoldable pub to_bytes : PingRequest → Result Error (List ℕ)
to_bytes r = ok (bytes "ping\n")

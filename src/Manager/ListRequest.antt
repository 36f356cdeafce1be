-- ===== src/Manager/ListRequest.antt =====
-- `ListRequest` of crates/shadowsocks/src/manager/protocol.rs.
use mobile_android_obfuscati.Common.{ℕ, List, if◌then◌else◌, Result, ok, err, ◌>>=◌}
use mobile_android_obfuscati.Common.Strings.{str_eq}
use mobile_android_obfuscati.Manager.Protocol.{Error, from_utf8}
use mobile_android_obfuscati.Common.Strings.{bytes}

pub data ListRequest : Type 0 where
  request : ListRequest

unfoldable pub from_bytes : List ℕ → Result Error ListRequest
from_bytes buf = from_utf8 buf >>= λ cmd.
    if str_eq cmd (bytes "list")
    then ok ListRequest.request
    else err (Error.unrecognized_command cmd)

unfoldable pub to_bytes : ListRequest → Result Error (List ℕ)
to_bytes r = ok (bytes "list\n")

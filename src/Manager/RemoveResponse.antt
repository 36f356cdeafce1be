-- ===== src/Manager/RemoveResponse.antt =====
-- `RemoveResponse` of crates/shadowsocks/src/manager/protocol.rs.
use mobile_android_obfuscati.Common.{ℕ, ◌++◌, List, [], ◌∷◌, Result, ok, ◌>>=◌}
use mobile_android_obfuscati.Common.Strings.{trim}
use mobile_android_obfuscati.Manager.Protocol.{Error, from_utf8}

pub record RemoveResponse : Type 0 where
  pub message : List ℕ

unfoldable pub from_bytes : List ℕ → Result Error RemoveResponse
from_bytes buf = from_utf8 buf >>= λ s. ok (record { message = trim s })

unfoldable pub to_bytes : RemoveResponse → Result Error (List ℕ)
to_bytes r = ok (r.message ++ b'\n' ∷ [])

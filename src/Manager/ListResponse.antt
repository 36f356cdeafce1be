-- ===== src/Manager/ListResponse.antt =====
-- `ListResponse` of crates/shadowsocks/src/manager/protocol.rs.
use mobile_android_obfuscati.Common.{ℕ, ◌++◌, List, [], ◌∷◌, none, some, Result, ok, err}
use mobile_android_obfuscati.Manager.AddRequest.{ServerConfig}
use mobile_android_obfuscati.Manager.Protocol.{Error, Json}

pub record ListResponse : Type 0 where
  pub servers : List ServerConfig

unfoldable pub from_bytes : Json ListResponse → List ℕ → Result Error ListResponse
from_bytes j buf = elim (j.from_slice buf) [ none ↦ err Error.json_error | some req ↦ ok req ]

unfoldable pub to_bytes : Json ListResponse → ListResponse → Result Error (List ℕ)
to_bytes j r = elim (j.to_vec r) [ none ↦ err Error.json_error | some v ↦ ok (v ++ b'\n' ∷ []) ]

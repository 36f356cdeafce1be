-- ===== src/Socks4/HandshakeResponse.antt =====
-- `struct HandshakeResponse` of crates/shadowsocks-service/src/local/socks/socks4.rs.
pub mod RoundTrip
use mobile_android_obfuscati.Common.{ℕ, ◌+◌, ◌==◌, if◌then◌else◌, not, get_or}
use mobile_android_obfuscati.Common.{List, [], ◌∷◌, ◌++◌, Result, ok, err, panic, ◌>>=◌}
use mobile_android_obfuscati.Common.Bytes.{read_exact}
use mobile_android_obfuscati.Socks4.Error.{Error, eof}
use mobile_android_obfuscati.Socks4.ResultCode.{ResultCode, as_u8, from_u8}

pub record HandshakeResponse : Type 0 where
  pub cd : ResultCode

unfoldable pub read_from : List ℕ → Result Error (HandshakeResponse × List ℕ)
unfolding read_exact
read_from r = do
  (buf, rest) ← read_exact eof 8 r
  let vn = get_or buf 0 0
  if not (vn == 0)
      then err (Error.unsupported_socks_version vn)
      else ok (record { cd = from_u8 (get_or buf 1 0) }, rest)

unfoldable pub write_to_buf : HandshakeResponse → List ℕ → List ℕ
write_to_buf h buf = buf ++ 0x00 ∷ as_u8 h.cd ∷ 0x00 ∷ 0x00 ∷ 0x00 ∷ 0x00 ∷ 0x00 ∷ 0x00 ∷ []

unfoldable pub write_to : HandshakeResponse → List ℕ → List ℕ
unfolding write_to_buf
write_to h w = w ++ write_to_buf h []

unfoldable pub serialized_len : HandshakeResponse → ℕ
serialized_len h = 1 + 1 + 2 + 4

-- ===== src/Socks5/HandshakeRequest.antt =====
-- `struct HandshakeRequest` of crates/shadowsocks/src/relay/socks5.rs.
pub mod RoundTrip
use mobile_android_obfuscati.Common.{
  ℕ, ◌+◌, ◌%◌, ◌==◌, if◌then◌else◌, not, ◌&&◌, length, get_or, ltb, leb, true, false,
}
use mobile_android_obfuscati.Common.{List, [], ◌∷◌, ◌++◌, Result, ok, err, panic, ◌>>=◌, none, some}
use mobile_android_obfuscati.Common.Bytes.{read_exact}
use mobile_android_obfuscati.Socks5.Error.{Error, eof, socks5_version}

pub record HandshakeRequest : Type 0 where
  pub methods : List ℕ

unfoldable pub read_from : List ℕ → Result Error (HandshakeRequest × List ℕ)
unfolding read_exact
read_from r = do
  (buf, r1) ← read_exact eof 2 r
  let ver = get_or buf 0 0
  let nmet = get_or buf 1 0
  if not (ver == socks5_version)
      then err (Error.unsupported_socks_version ver)
      else do (methods, rest) ← read_exact eof nmet r1; ok (record { methods = methods }, rest)

-- `methods.len() as u8`
unfoldable pub write_to_buf : HandshakeRequest → List ℕ → List ℕ
write_to_buf h buf = (buf ++ socks5_version ∷ (length h.methods % 256) ∷ []) ++ h.methods

unfoldable pub write_to : HandshakeRequest → List ℕ → List ℕ
unfolding write_to_buf
write_to h w = w ++ write_to_buf h []

unfoldable pub serialized_len : HandshakeRequest → ℕ
serialized_len h = 2 + length h.methods

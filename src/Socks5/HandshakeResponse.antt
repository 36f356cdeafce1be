-- ===== src/Socks5/HandshakeResponse.antt =====
-- `struct HandshakeResponse` of crates/shadowsocks/src/relay/socks5.rs.
pub mod RoundTrip
use mobile_android_obfuscati.Common.{
  ℕ, ◌+◌, ◌%◌, ◌==◌, if◌then◌else◌, not, ◌&&◌, length, get_or, ltb, leb, true, false,
}
use mobile_android_obfuscati.Common.{List, [], ◌∷◌, ◌++◌, Result, ok, err, panic, ◌>>=◌, none, some}
use mobile_android_obfuscati.Common.Bytes.{read_exact}
use mobile_android_obfuscati.Socks5.Error.{Error, eof, socks5_version}

pub record HandshakeResponse : Type 0 where
  pub chosen_method : ℕ

unfoldable pub read_from : List ℕ → Result Error (HandshakeResponse × List ℕ)
unfolding read_exact
read_from r = do
  (buf, rest) ← read_exact eof 2 r
  let ver = get_or buf 0 0
  let met = get_or buf 1 0
  if not (ver == socks5_version)
      then err (Error.unsupported_socks_version ver)
      else ok (record { chosen_method = met }, rest)

unfoldable pub write_to_buf : HandshakeResponse → List ℕ → List ℕ
write_to_buf h buf = buf ++ socks5_version ∷ h.chosen_method ∷ []

unfoldable pub write_to : HandshakeResponse → List ℕ → List ℕ
unfolding write_to_buf
write_to h w = w ++ write_to_buf h []

unfoldable pub serialized_len : HandshakeResponse → ℕ
serialized_len h = 2

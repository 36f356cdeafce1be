-- ===== src/Socks5/PasswdAuthResponse.antt =====
-- `struct PasswdAuthResponse` of crates/shadowsocks/src/relay/socks5.rs (RFC 1929).
pub mod Truncated
use mobile_android_obfuscati.Common.{
  ℕ, ◌+◌, ◌%◌, ◌==◌, if◌then◌else◌, not, ◌&&◌, length, get_or, ltb, leb, true, false,
}
use mobile_android_obfuscati.Common.{List, [], ◌∷◌, ◌++◌, Result, ok, err, panic, ◌>>=◌, none, some}
use mobile_android_obfuscati.Common.Bytes.{read_exact}
use mobile_android_obfuscati.Socks5.Error.{Error, eof, socks5_version}

pub record PasswdAuthResponse : Type 0 where
  pub status : ℕ

-- The check of the two bytes in the buffer.
response_of : List ℕ → List ℕ → Result Error (PasswdAuthResponse × List ℕ)
response_of buf rest =
    let ver = get_or buf 0 0 in
    if not (ver == 0x01)
    then err (Error.unsupported_passwd_auth_version ver)
    else ok (record { status = get_or buf 1 0 }, rest)

-- The result of the read is dropped. `left` is what a read that met the end of the stream leaves in
-- the buffer, which tokio does not specify; the stream is then at its end.
module _ (left : List ℕ → List ℕ) where
  unfoldable pub read_from : List ℕ → Result Error (PasswdAuthResponse × List ℕ)
  unfolding read_exact response_of
  read_from r = elim (read_exact eof 2 r) [
    | ok (buf, rest) ↦ response_of buf rest
    | err e ↦ response_of (left r) []
    | panic ↦ panic
  ]

unfoldable pub write_to_buf : PasswdAuthResponse → List ℕ → List ℕ
write_to_buf h buf = buf ++ 0x01 ∷ h.status ∷ []

unfoldable pub write_to : PasswdAuthResponse → List ℕ → List ℕ
unfolding write_to_buf
write_to h w = w ++ write_to_buf h []

unfoldable pub serialized_len : PasswdAuthResponse → ℕ
serialized_len h = 2

-- ===== src/Socks5/PasswdAuthRequest.antt =====
-- `struct PasswdAuthRequest` of crates/shadowsocks/src/relay/socks5.rs (RFC 1929).
pub mod RoundTrip
use mobile_android_obfuscati.Common.{
  Bool, ℕ, ◌+◌, ◌%◌, ◌==◌, if◌then◌else◌, not, ◌&&◌, length, get_or, ltb, leb, true, false,
}
use mobile_android_obfuscati.Common.{List, [], ◌∷◌, ◌++◌, Result, ok, err, panic, ◌>>=◌, none, some}
use mobile_android_obfuscati.Common.Bytes.{read_exact}
use mobile_android_obfuscati.Socks5.Error.{Error, eof, socks5_version}

pub record PasswdAuthRequest : Type 0 where
  pub uname : List ℕ
  pub passwd : List ℕ

abbrev in_bounds : List ℕ → Bool
in_bounds bs = not (length bs == 0) && leb (length bs) 255

-- The constructor asserts that both fields have 1 to 255 bytes.
unfoldable pub new {ℓ} : {E : Type ℓ} → List ℕ → List ℕ → Result E PasswdAuthRequest
new uname passwd =
    if in_bounds uname && in_bounds passwd
    then ok (record { uname = uname; passwd = passwd })
    else panic

-- A length byte that must not be 0, and as many bytes.
read_field : List ℕ → Result Error (List ℕ × List ℕ)
unfolding read_exact
read_field r = do
  (len_buf, r1) ← read_exact eof 1 r
  let len = get_or len_buf 0 0
  if len == 0 then err Error.passwd_auth_invalid_request else read_exact eof len r1

unfoldable pub read_from : List ℕ → Result Error (PasswdAuthRequest × List ℕ)
unfolding read_exact read_field
read_from r = do
  (ver_buf, r1) ← read_exact eof 1 r
  let ver = get_or ver_buf 0 0
  if not (ver == 0x01) then err (Error.unsupported_passwd_auth_version ver) else do
    (uname, r2) ← read_field r1
    (passwd, rest) ← read_field r2
    ok (record { uname = uname; passwd = passwd }, rest)

-- The lengths are written `as u8`.
unfoldable pub write_to_buf : PasswdAuthRequest → List ℕ → List ℕ
write_to_buf h buf =
    buf ++ 0x01 ∷ (length h.uname % 256) ∷ (h.uname ++ (length h.passwd % 256) ∷ h.passwd)

unfoldable pub write_to : PasswdAuthRequest → List ℕ → List ℕ
unfolding write_to_buf
write_to h w = w ++ write_to_buf h []

unfoldable pub serialized_len : PasswdAuthRequest → ℕ
serialized_len h = 1 + 1 + length h.uname + 1 + length h.passwd

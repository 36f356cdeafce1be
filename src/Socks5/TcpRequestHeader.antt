-- ===== src/Socks5/TcpRequestHeader.antt =====
-- `struct TcpRequestHeader` of crates/shadowsocks/src/relay/socks5.rs.
pub mod RoundTrip
use mobile_android_obfuscati.Common.{
  ℕ, ◌+◌, ◌%◌, ◌==◌, if◌then◌else◌, not, ◌&&◌, length, get_or, ltb, leb, true, false,
}
use mobile_android_obfuscati.Common.{List, [], ◌∷◌, ◌++◌, Result, ok, err, panic, ◌>>=◌, none, some}
use mobile_android_obfuscati.Common.Bytes.{read_exact}
use mobile_android_obfuscati.Socks5.Error.{Error, eof, socks5_version}
use mobile_android_obfuscati.Socks5.Command.{Command, as_u8, from_u8}
use mobile_android_obfuscati.Socks5.Address
use mobile_android_obfuscati.Socks5.Address.{Address}

pub record TcpRequestHeader : Type 0 where
  pub command : Command
  pub address : Address

unfoldable pub read_from : List ℕ → Result Error (TcpRequestHeader × List ℕ)
unfolding read_exact
read_from r = do
  (buf, r1) ← read_exact eof 3 r
  let ver = get_or buf 0 0
  let cmd = get_or buf 1 0
  if not (ver == socks5_version)
      then err (Error.unsupported_socks_version ver)
      else elim (from_u8 cmd) [
        | none ↦ err (Error.unsupported_command cmd)
        | some command ↦ do
          (address, rest) ← Address.read_from r1
          ok (record { command = command; address = address }, rest)
      ]

unfoldable pub write_to_buf {ℓ} : {E : Type ℓ} → TcpRequestHeader → List ℕ → Result E (List ℕ)
write_to_buf h buf =
    Address.write_to_buf h.address (buf ++ socks5_version ∷ as_u8 h.command ∷ 0x00 ∷ [])

unfoldable pub write_to {ℓ} : {E : Type ℓ} → TcpRequestHeader → List ℕ → Result E (List ℕ)
unfolding write_to_buf
write_to h w = do buf ← write_to_buf h []; ok (w ++ buf)

unfoldable pub serialized_len : TcpRequestHeader → ℕ
serialized_len h = Address.serialized_len h.address + 3

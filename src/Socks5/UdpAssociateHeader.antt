-- ===== src/Socks5/UdpAssociateHeader.antt =====
-- `struct UdpAssociateHeader` of crates/shadowsocks/src/relay/socks5.rs.
pub mod RoundTrip
use mobile_android_obfuscati.Common.{
  ℕ, ◌+◌, ◌%◌, ◌==◌, if◌then◌else◌, not, ◌&&◌, length, get_or, ltb, leb, true, false,
}
use mobile_android_obfuscati.Common.{List, [], ◌∷◌, ◌++◌, Result, ok, err, panic, ◌>>=◌, none, some}
use mobile_android_obfuscati.Common.Bytes.{read_exact}
use mobile_android_obfuscati.Socks5.Error.{Error, eof, socks5_version}
use mobile_android_obfuscati.Socks5.Address
use mobile_android_obfuscati.Socks5.Address.{Address}

pub record UdpAssociateHeader : Type 0 where
  pub frag : ℕ
  pub address : Address

unfoldable pub read_from : List ℕ → Result Error (UdpAssociateHeader × List ℕ)
unfolding read_exact
read_from r = do
  (buf, r1) ← read_exact eof 3 r
  (address, rest) ← Address.read_from r1
  ok (record { frag = get_or buf 2 0; address = address }, rest)

unfoldable pub write_to_buf {ℓ} : {E : Type ℓ} → UdpAssociateHeader → List ℕ → Result E (List ℕ)
write_to_buf h buf = Address.write_to_buf h.address (buf ++ 0x00 ∷ 0x00 ∷ h.frag ∷ [])

unfoldable pub write_to {ℓ} : {E : Type ℓ} → UdpAssociateHeader → List ℕ → Result E (List ℕ)
unfolding write_to_buf
write_to h w = do buf ← write_to_buf h []; ok (w ++ buf)

unfoldable pub serialized_len : UdpAssociateHeader → ℕ
serialized_len h = 3 + Address.serialized_len h.address

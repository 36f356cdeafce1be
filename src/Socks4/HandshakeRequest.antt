-- ===== src/Socks4/HandshakeRequest.antt =====
-- `struct HandshakeRequest` of crates/shadowsocks-service/src/local/socks/socks4.rs.
pub mod RoundTrip
use mobile_android_obfuscati.Common.{
  ℕ, zero, suc, ◌+◌, ◌==◌, if◌then◌else◌, not, ◌&&◌, Bool, true, false, length, get_or,
}
use mobile_android_obfuscati.Common.{
  List, [], ◌∷◌, ◌++◌, Result, ok, err, panic, ◌>>=◌, none, some, Option,
}
use mobile_android_obfuscati.Common.Bytes.{read_exact, read_until_nul, be_bytes, from_be_bytes}
use mobile_android_obfuscati.Common.Utf8.{is_utf8}
use mobile_android_obfuscati.Net.{octets}
use mobile_android_obfuscati.Socks4.Error.{Error, eof}
use mobile_android_obfuscati.Socks4.Command.{Command, as_u8, from_u8}
use mobile_android_obfuscati.Socks4.Address.{Address}

abbrev pub socks4_version : ℕ
socks4_version = 4

pub record HandshakeRequest : Type 0 where
  pub cd : Command
  pub dst : Address
  pub user_id : List ℕ

-- The bytes before the last, if the last is 0: `last() == Some(&b'\0')` and `pop()`.
unfoldable pub strip_nul : List ℕ → Option (List ℕ)
strip_nul [] = none
strip_nul (zero ∷ []) = some []
strip_nul (suc b ∷ []) = none
strip_nul (b ∷ c ∷ s) = elim (strip_nul (c ∷ s)) [ none ↦ none | some front ↦ some (b ∷ front) ]

-- A string up to its NUL, which is taken off.
unfoldable pub read_nul_terminated : List ℕ → Result Error (List ℕ × List ℕ)
read_nul_terminated r =
    let (s, rest) = read_until_nul r in
    elim (strip_nul s) [ none ↦ err eof | some front ↦ ok (front, rest) ]

abbrev is_host_marker : List ℕ → Bool
is_host_marker buf =
    get_or buf 4 0 == 0x00
    && (get_or buf 5 0 == 0x00 && (get_or buf 6 0 == 0x00 && not (get_or buf 7 0 == 0x00)))

unfoldable pub read_host : ℕ → List ℕ → Result Error (Address × List ℕ)
read_host port r = do
  (host, rest) ← read_nul_terminated r
  if is_utf8 host
      then ok (Address.domain_name_address host port, rest)
      else err Error.address_host_invalid_encoding

abbrev socket_of : List ℕ → ℕ → Address
socket_of buf port = Address.socket_address (record {
  ip = record { a = get_or buf 4 0; b = get_or buf 5 0; c = get_or buf 6 0; d = get_or buf 7 0 };
  port = port;
})

unfoldable pub read_destination : List ℕ → List ℕ → Result Error (Address × List ℕ)
read_destination buf r =
    let port = from_be_bytes (get_or buf 2 0) (get_or buf 3 0) in
    if is_host_marker buf then read_host port r else ok (socket_of buf port, r)

unfoldable pub read_from : List ℕ → Result Error (HandshakeRequest × List ℕ)
unfolding read_exact
read_from r = do
  (buf, r1) ← read_exact eof 8 r
  let vn = get_or buf 0 0
  let cd = get_or buf 1 0
  if not (vn == socks4_version)
      then err (Error.unsupported_socks_version vn)
      else elim (from_u8 cd) [
        | none ↦ err (Error.unsupported_socks_version cd)
        | some command ↦ do
          (user_id, r2) ← read_nul_terminated r1
          (dst, rest) ← read_destination buf r2
          ok (record { cd = command; dst = dst; user_id = user_id }, rest)
      ]

-- `debug_assert!` leaves no trace in a release build.
write_destination : Address → List ℕ → List ℕ
write_destination (Address.socket_address saddr) user_id =
    be_bytes saddr.port ++ (octets saddr.ip ++ (user_id ++ 0 ∷ []))
write_destination (Address.domain_name_address dname port) user_id =
    be_bytes port ++ (0x00 ∷ 0x00 ∷ 0x00 ∷ 0xff ∷ (user_id ++ 0 ∷ (dname ++ 0 ∷ [])))

unfoldable pub write_to_buf : HandshakeRequest → List ℕ → List ℕ
unfolding write_destination
write_to_buf h buf = buf ++ socks4_version ∷ as_u8 h.cd ∷ write_destination h.dst h.user_id

unfoldable pub write_to : HandshakeRequest → List ℕ → List ℕ
unfolding write_to_buf
write_to h w = w ++ write_to_buf h []

host_len : Address → ℕ
host_len (Address.socket_address saddr) = 0
host_len (Address.domain_name_address dname port) = length dname + 1

unfoldable pub serialized_len : HandshakeRequest → ℕ
unfolding host_len
serialized_len h = 1 + 1 + 2 + 4 + length h.user_id + 1 + host_len h.dst

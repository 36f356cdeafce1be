-- ===== src/ProxyStream/Protocol.antt =====
-- crates/shadowsocks/src/relay/tcprelay/proxy_stream/protocol: the headers v1 and v2 of requests. The
-- padding is memory that `advance_mut` takes in unwritten: it is an argument.
pub mod RoundTrip
use mobile_android_obfuscati.Common.{
  ℕ, ◌+◌, ◌%◌, ◌<◌, ltb, leb, Bool, true, false, List, [], ◌∷◌, ◌++◌, length, drop, get_or,
  if◌then◌else◌,
}
use mobile_android_obfuscati.Common.{Result, ok, err, panic, ◌>>=◌, IoErrorKind}
use mobile_android_obfuscati.Common.Bytes.{be_bytes, from_be_bytes, read_exact}
use mobile_android_obfuscati.Socks5.Error.{Error}
use mobile_android_obfuscati.Socks5.Address
use mobile_android_obfuscati.Socks5.Address.{Address}

abbrev pub max_padding_size : ℕ
max_padding_size = 900

-- `CipherCategory` of the crate `shadowsocks_crypto`.
pub data CipherCategory : Type 0 where
  plain stream aead aead_2022 : CipherCategory

-- `impl From<Error> for io::Error` of crates/shadowsocks/src/relay/socks5.rs.
abbrev pub io_error_of : Error → IoErrorKind
io_error_of (Error.io_error k) = k
io_error_of (Error.address_type_not_supported t) = IoErrorKind.other_kind
io_error_of Error.address_domain_invalid_encoding = IoErrorKind.other_kind
io_error_of (Error.unsupported_socks_version v) = IoErrorKind.other_kind
io_error_of (Error.unsupported_command c) = IoErrorKind.other_kind
io_error_of (Error.unsupported_passwd_auth_version v) = IoErrorKind.other_kind
io_error_of Error.passwd_auth_invalid_request = IoErrorKind.other_kind
io_error_of (Error.reply r) = IoErrorKind.other_kind

-- `?` on a `Result<T, Error>` in a function of `io::Result`.
abbrev pub from_socks : {A : Type 0} → Result Error A → Result IoErrorKind A
from_socks (ok a) = ok a
from_socks (err failure) = err (io_error_of failure)
from_socks panic = panic

pub record StreamTcpRequestHeader : Type 0 where
  pub addr : Address

pub record Aead2022TcpRequestHeader : Type 0 where
  pub addr : Address
  pub padding_size : ℕ

pub data TcpRequestHeader : Type 0 where
  stream : StreamTcpRequestHeader → TcpRequestHeader
  aead_2022 : Aead2022TcpRequestHeader → TcpRequestHeader

unfoldable pub stream_read_from : List ℕ → Result IoErrorKind (StreamTcpRequestHeader × List ℕ)
stream_read_from r = do
  (addr, rest) ← from_socks (Address.read_from r)
  ok (record { addr = addr }, rest)

unfoldable pub stream_write_to_buf : StreamTcpRequestHeader → List ℕ → Result IoErrorKind (List ℕ)
stream_write_to_buf h buf = Address.write_to_buf h.addr buf

unfoldable pub stream_serialized_len : StreamTcpRequestHeader → ℕ
stream_serialized_len h = Address.serialized_len h.addr

-- The loop reads as many bytes as the padding has, or up to the end of the stream.
unfoldable pub aead_2022_read_from : List ℕ → Result IoErrorKind (Aead2022TcpRequestHeader × List ℕ)
aead_2022_read_from r = do
  (addr, r1) ← from_socks (Address.read_from r)
  (buf, rest) ← read_exact IoErrorKind.unexpected_eof 2 r1
  let padding_size = from_be_bytes (get_or buf 0 0) (get_or buf 1 0)
  ok (record { addr = addr; padding_size = padding_size }, drop padding_size rest)

unfoldable pub aead_2022_write_to_buf :
    Aead2022TcpRequestHeader → List ℕ → List ℕ → Result IoErrorKind (List ℕ)
aead_2022_write_to_buf h padding buf =
    if leb h.padding_size max_padding_size
    then ok ((buf ++ be_bytes h.padding_size) ++ padding)
    else panic

unfoldable pub aead_2022_serialized_len : Aead2022TcpRequestHeader → ℕ
aead_2022_serialized_len h = Address.serialized_len h.addr + 2 + h.padding_size

abbrev as_stream :
    Result IoErrorKind (StreamTcpRequestHeader × List ℕ)
    → Result IoErrorKind (TcpRequestHeader × List ℕ)
as_stream r = do (h, rest) ← r; ok (TcpRequestHeader.stream h, rest)

unfoldable pub read_from : CipherCategory → List ℕ → Result IoErrorKind (TcpRequestHeader × List ℕ)
read_from CipherCategory.plain r = as_stream (stream_read_from r)
read_from CipherCategory.stream r = as_stream (stream_read_from r)
read_from CipherCategory.aead r = as_stream (stream_read_from r)
read_from CipherCategory.aead_2022 r = do
  (h, rest) ← aead_2022_read_from r
  ok (TcpRequestHeader.aead_2022 h, rest)

unfoldable pub write_to_buf : TcpRequestHeader → List ℕ → List ℕ → Result IoErrorKind (List ℕ)
write_to_buf (TcpRequestHeader.stream h) padding buf = stream_write_to_buf h buf
write_to_buf (TcpRequestHeader.aead_2022 h) padding buf = aead_2022_write_to_buf h padding buf

unfoldable pub serialized_len : TcpRequestHeader → ℕ
serialized_len (TcpRequestHeader.stream h) = stream_serialized_len h
serialized_len (TcpRequestHeader.aead_2022 h) = aead_2022_serialized_len h

abbrev pub header_addr : TcpRequestHeader → Address
header_addr (TcpRequestHeader.stream h) = h.addr
header_addr (TcpRequestHeader.aead_2022 h) = h.addr

-- `get_aead_2022_padding_size` of crates/shadowsocks/src/relay/mod.rs, on a random number.
unfoldable pub get_aead_2022_padding_size : List ℕ → ℕ → ℕ
get_aead_2022_padding_size [] random = random % max_padding_size
get_aead_2022_padding_size (b ∷ payload) random = 0

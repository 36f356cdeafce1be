-- ===== src/ProxyStream/Protocol/RoundTrip.antt =====
-- What the headers write.
use mobile_android_obfuscati.Common.{
  ℕ, ◌+◌, ◌≤◌, ◌≡◌, refl, ap, arith, leb, true, List, ◌++◌, length,
}
use mobile_android_obfuscati.Common.{ok, IoErrorKind}
use mobile_android_obfuscati.Common.Bytes.{be_bytes}
use mathlib.Core.List.{append_assoc}
use mobile_android_obfuscati.Socks5.Address
use mobile_android_obfuscati.Socks5.Address.{Address}
use mobile_android_obfuscati.Socks5.Address.RoundTrip.{
  IsWire, encoding, write_to_buf-encoding, read_from-encoding, length-encoding,
}
use mobile_android_obfuscati.ProxyStream.Protocol.{
  Aead2022TcpRequestHeader, StreamTcpRequestHeader, stream_read_from, stream_write_to_buf,
  stream_serialized_len, aead_2022_write_to_buf, aead_2022_serialized_len, max_padding_size,
}

-- The header of AEAD 2022 writes, with a padding that is allowed and has its size, as many bytes less
-- than `serialized_len` says as the address takes, and they are the same for every address.
pub aead_2022_write_to_buf-omits_address :
    (h : Aead2022TcpRequestHeader) (other : Address) (padding buf : List ℕ)
    → h.padding_size ≤ max_padding_size
    → length padding ≡ h.padding_size
    → (bytes : List ℕ) × (aead_2022_write_to_buf h padding buf ≡ ok (buf ++ bytes))
      × (aead_2022_write_to_buf (record h { addr = other }) padding buf ≡ ok (buf ++ bytes))
      × (length bytes + Address.serialized_len h.addr ≡ aead_2022_serialized_len h)
unfolding aead_2022_write_to_buf aead_2022_serialized_len
aead_2022_write_to_buf-omits_address h other padding buf allowed size =
    let fits : leb h.padding_size max_padding_size ≡ true = ground arith in
    (
      be_bytes h.padding_size ++ padding,
      rw fits (ap ok (append_assoc buf (be_bytes h.padding_size) padding)),
      rw fits (ap ok (append_assoc buf (be_bytes h.padding_size) padding)),
      omega arith,
    )

-- The header of the other methods is read back, and has the length that it says.
pub stream_header_roundtrip :
    (h : StreamTcpRequestHeader) (buf rest : List ℕ)
    → IsWire h.addr
    → (bytes : List ℕ) × (stream_write_to_buf h buf ≡ ok (buf ++ bytes))
      × (stream_read_from (bytes ++ rest) ≡ ok (h, rest))
      × (length bytes ≡ stream_serialized_len h)
unfolding stream_write_to_buf stream_read_from stream_serialized_len
stream_header_roundtrip h buf rest w = (
  encoding h.addr,
  write_to_buf-encoding {E = IoErrorKind} h.addr buf w,
  rw (read_from-encoding h.addr rest w) refl,
  length-encoding h.addr,
)

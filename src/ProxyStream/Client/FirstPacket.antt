-- ===== src/ProxyStream/Client/FirstPacket.antt =====
-- The first packet of a client is a header and the payload.
use mathlib.Core.List.{append_assoc}
use mobile_android_obfuscati.Common.{
  ℕ, ◌/◌, ◌%◌, ◌≡◌, refl, ap, ◌∙◌, arith, List, [], ◌++◌, length, drop-length_append,
}
use mobile_android_obfuscati.Common.{ok, IoErrorKind}
use mobile_android_obfuscati.Common.Bytes.{be_bytes, from_be_bytes, read_exact}
use mobile_android_obfuscati.Socks5.Address.{Address}
use mobile_android_obfuscati.Socks5.Address.RoundTrip.{
  IsWire, encoding, write_to_buf-encoding, read_from-encoding,
}
use mobile_android_obfuscati.ProxyStream.Protocol.{
  CipherCategory, TcpRequestHeader, stream_read_from, aead_2022_read_from, read_from, header_addr,
  get_aead_2022_padding_size,
}
use mobile_android_obfuscati.ProxyStream.Client.{make_first_packet_buffer}

pub aead_2022_read_from-bytes :
    (addr : Address) (n : ℕ) (padding payload : List ℕ)
    → IsWire addr
    → length padding ≡ n
    → aead_2022_read_from (encoding addr ++ (be_bytes n ++ (padding ++ payload)))
      ≡ ok (record { addr = addr; padding_size = n }, payload)
unfolding aead_2022_read_from read_exact
aead_2022_read_from-bytes addr n padding payload w size =
    let number : from_be_bytes (n / 256) (n % 256) ≡ n = omega arith in
    rw
      (
        read_from-encoding addr (be_bytes n ++ (padding ++ payload)) w,
        number,
        ← size,
        drop-length_append padding payload,
      )
      refl

pub joined :
    (front number padding payload : List ℕ)
    → ((front ++ number) ++ padding) ++ payload ≡ front ++ (number ++ (padding ++ payload))
joined front number padding payload =
    append_assoc (front ++ number) padding payload ∙ append_assoc front number (padding ++ payload)

-- Whatever the method, `TcpRequestHeader::read_from` reads the address out of the first packet, and what
-- it leaves is the payload, if the address has an encoding and the padding its size.
pub read_from-make_first_packet_buffer :
    (category : CipherCategory) (addr : Address) (payload : List ℕ) (random : ℕ) (padding : List ℕ)
    → IsWire addr
    → length padding ≡ get_aead_2022_padding_size payload random
    → (packet : List ℕ) × (h : TcpRequestHeader) × (make_first_packet_buffer category addr payload
          random padding
        ≡ ok packet)
      × (read_from category packet ≡ ok (h, payload))
      × (header_addr h ≡ addr)
unfolding make_first_packet_buffer read_from stream_read_from
read_from-make_first_packet_buffer CipherCategory.plain addr payload random padding w size = (
  encoding addr ++ payload,
  TcpRequestHeader.stream (record { addr = addr }),
  rw (write_to_buf-encoding {E = IoErrorKind} addr [] w) refl,
  rw (read_from-encoding addr payload w) refl,
  refl,
)
read_from-make_first_packet_buffer CipherCategory.stream addr payload random padding w size = (
  encoding addr ++ payload,
  TcpRequestHeader.stream (record { addr = addr }),
  rw (write_to_buf-encoding {E = IoErrorKind} addr [] w) refl,
  rw (read_from-encoding addr payload w) refl,
  refl,
)
read_from-make_first_packet_buffer CipherCategory.aead addr payload random padding w size = (
  encoding addr ++ payload,
  TcpRequestHeader.stream (record { addr = addr }),
  rw (write_to_buf-encoding {E = IoErrorKind} addr [] w) refl,
  rw (read_from-encoding addr payload w) refl,
  refl,
)
read_from-make_first_packet_buffer CipherCategory.aead_2022 addr payload random padding w size =
    let n = get_aead_2022_padding_size payload random in
    let packet = encoding addr ++ (be_bytes n ++ (padding ++ payload)) in
    (
      packet,
      TcpRequestHeader.aead_2022 (record { addr = addr; padding_size = n }),
      rw (write_to_buf-encoding {E = IoErrorKind} addr [] w)
          (ap ok (joined (encoding addr) (be_bytes n) padding payload)),
      rw (aead_2022_read_from-bytes addr n padding payload w size) refl,
      refl,
    )

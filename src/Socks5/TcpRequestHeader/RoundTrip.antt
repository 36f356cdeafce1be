-- ===== src/Socks5/TcpRequestHeader/RoundTrip.antt =====
-- Request headers on the wire and back.
use mobile_android_obfuscati.Common.{ℕ, ◌≡◌, refl, ap, arith, length, All}
use mobile_android_obfuscati.Common.{List, [], ◌∷◌, ◌++◌, ok}
use mobile_android_obfuscati.Common.Bytes.{IsByte}
use mobile_android_obfuscati.Socks5.Error.{Error}
use mathlib.Core.List.{append_assoc}
use mobile_android_obfuscati.Socks5.Address.RoundTrip.{
  IsWire, encoding, write_to_buf-encoding, length-encoding, read_from-encoding,
}
use mobile_android_obfuscati.Socks5.Address.Decode.{address_decoded}
use mobile_android_obfuscati.Socks5.Command.{as_u8}
use mobile_android_obfuscati.Socks5.Command.Codes.{from_u8_iff}
use mobile_android_obfuscati.Socks5.TcpRequestHeader.{
  TcpRequestHeader, read_from, write_to_buf, serialized_len,
}

-- A request header over an address in wire range is written in `serialized_len` bytes, and read
-- back from them up to whatever follows.
pub tcp_request_roundtrip :
    (h : TcpRequestHeader) (buf rest : List ℕ)
    → IsWire h.address
    → (bytes : List ℕ) × (write_to_buf {E = Error} h buf ≡ ok (buf ++ bytes))
      × (length bytes ≡ serialized_len h)
      × (read_from (bytes ++ rest) ≡ ok (h, rest))
unfolding write_to_buf read_from serialized_len
tcp_request_roundtrip h buf rest w = (
  5 ∷ as_u8 h.command ∷ 0 ∷ encoding h.address,
  rw (write_to_buf-encoding {E = Error} h.address (buf ++ 5 ∷ as_u8 h.command ∷ 0 ∷ []) w)
      (ap ok (append_assoc buf (5 ∷ as_u8 h.command ∷ 0 ∷ []) (encoding h.address))),
  omega (arith, length-encoding h.address),
  rw ((from_u8_iff (as_u8 h.command) h.command).1 refl, read_from-encoding h.address rest w) refl,
)

-- A header that is read was on the wire: version 5, the code of its command, a reserved byte of any
-- value, and the encoding of its address, which is in wire range.
pub tcp_request_decoded :
    (r : List ℕ) (h : TcpRequestHeader) (rest : List ℕ)
    → All IsByte r
    → read_from r ≡ ok (h, rest)
    → (rsv : ℕ) × IsWire h.address × (r ≡ 5 ∷ as_u8 h.command ∷ rsv ∷ (encoding h.address ++ rest))
tcp_request_decoded (v ∷ c ∷ z ∷ r) h rest (bv, (bc, (bz, b))) k = (
  z,
  unfold read_from in ground (arith, from_u8_iff c h.command, address_decoded h.address rest r b),
  unfold read_from in ground (arith, from_u8_iff c h.command, address_decoded h.address rest r b),
)
tcp_request_decoded [] h rest b k = unfold read_from in cc
tcp_request_decoded (v ∷ []) h rest b k = unfold read_from in cc
tcp_request_decoded (v ∷ c ∷ []) h rest b k = unfold read_from in cc

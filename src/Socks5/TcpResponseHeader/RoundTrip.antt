-- ===== src/Socks5/TcpResponseHeader/RoundTrip.antt =====
-- Response headers on the wire and back.
use mobile_android_obfuscati.Common.{ℕ, ◌<◌, ◌≡◌, refl, ap, arith, length}
use mobile_android_obfuscati.Common.{List, [], ◌∷◌, ◌++◌, ok}
use mobile_android_obfuscati.Socks5.Error.{Error}
use mathlib.Core.List.{append_assoc}
use mobile_android_obfuscati.Socks5.Address.RoundTrip.{
  IsWire, encoding, write_to_buf-encoding, length-encoding, read_from-encoding,
}
use mobile_android_obfuscati.Socks5.Reply.{Reply, as_u8}
use mobile_android_obfuscati.Socks5.Reply.Codes.{from_u8-as_u8}
use mobile_android_obfuscati.Socks5.TcpResponseHeader.{
  TcpResponseHeader, read_from, write_to_buf, serialized_len,
}

-- A response header over an address in wire range is written in `serialized_len` bytes, and read
-- back from them up to whatever follows, if its reply is named or carries a code that has no name.
pub tcp_response_roundtrip :
    (h : TcpResponseHeader) (buf rest : List ℕ)
    → IsWire h.address
    → ((c : ℕ) → h.reply ≡ Reply.other_reply c → 8 < c)
    → (bytes : List ℕ) × (write_to_buf {E = Error} h buf ≡ ok (buf ++ bytes))
      × (length bytes ≡ serialized_len h)
      × (read_from (bytes ++ rest) ≡ ok (h, rest))
unfolding write_to_buf read_from serialized_len
tcp_response_roundtrip h buf rest w named = (
  5 ∷ as_u8 h.reply ∷ 0 ∷ encoding h.address,
  rw (write_to_buf-encoding {E = Error} h.address (buf ++ 5 ∷ as_u8 h.reply ∷ 0 ∷ []) w)
      (ap ok (append_assoc buf (5 ∷ as_u8 h.reply ∷ 0 ∷ []) (encoding h.address))),
  omega (arith, length-encoding h.address),
  rw (read_from-encoding h.address rest w, from_u8-as_u8 h.reply named) refl,
)

-- ===== src/Socks5/UdpAssociateHeader/RoundTrip.antt =====
-- UDP association headers on the wire and back.
use mobile_android_obfuscati.Common.{ℕ, ◌≡◌, refl, ap, arith, length}
use mobile_android_obfuscati.Common.{List, [], ◌∷◌, ◌++◌, ok}
use mobile_android_obfuscati.Socks5.Error.{Error}
use mathlib.Core.List.{append_assoc}
use mobile_android_obfuscati.Socks5.Address.RoundTrip.{
  IsWire, encoding, write_to_buf-encoding, length-encoding, read_from-encoding,
}
use mobile_android_obfuscati.Socks5.UdpAssociateHeader.{
  UdpAssociateHeader, read_from, write_to_buf, serialized_len,
}

-- A header over an address in wire range is written in `serialized_len` bytes; from a datagram that
-- starts with them the header is read back, fragment number included, and the payload is left.
pub udp_associate_roundtrip :
    (h : UdpAssociateHeader) (buf payload : List ℕ)
    → IsWire h.address
    → (bytes : List ℕ) × (write_to_buf {E = Error} h buf ≡ ok (buf ++ bytes))
      × (length bytes ≡ serialized_len h)
      × (read_from (bytes ++ payload) ≡ ok (h, payload))
unfolding write_to_buf read_from serialized_len
udp_associate_roundtrip h buf payload w = (
  0 ∷ 0 ∷ h.frag ∷ encoding h.address,
  rw (write_to_buf-encoding {E = Error} h.address (buf ++ 0 ∷ 0 ∷ h.frag ∷ []) w)
      (ap ok (append_assoc buf (0 ∷ 0 ∷ h.frag ∷ []) (encoding h.address))),
  omega (arith, length-encoding h.address),
  rw (read_from-encoding h.address payload w) refl,
)

-- ===== src/Socks4/HandshakeResponse/RoundTrip.antt =====
-- SOCKS4 replies on the wire and back.
use mobile_android_obfuscati.Common.{ℕ, ◌≡◌, ◌<◌, ◌⊎◌, refl, arith, List, [], ◌++◌, ok, length}
use mobile_android_obfuscati.Socks4.ResultCode.{ResultCode, as_u8, from_u8}
use mobile_android_obfuscati.Socks4.HandshakeResponse.{
  HandshakeResponse, read_from, write_to_buf, serialized_len,
}

-- A reply is read back from the eight bytes that are written, up to whatever follows, if it is named
-- or carries a code that has no name.
pub socks4_response_roundtrip :
    (h : HandshakeResponse) (rest : List ℕ)
    → ((c : ℕ) → h.cd ≡ ResultCode.other c → (c < 90) ⊎ (93 < c))
    → (read_from (write_to_buf h [] ++ rest) ≡ ok (h, rest))
      × (length (write_to_buf h []) ≡ serialized_len h)
unfolding read_from write_to_buf serialized_len
socks4_response_roundtrip h rest named = go h.cd refl
  where
    go :
        (code : ResultCode)
        → h.cd ≡ code
        → (read_from (write_to_buf h [] ++ rest) ≡ ok (h, rest))
          × (length (write_to_buf h []) ≡ serialized_len h)
    go (ResultCode.other c) e = unfold as_u8 from_u8 in ground (arith, named c e)
    go _ e = unfold as_u8 from_u8 in ground arith

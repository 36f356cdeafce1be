-- ===== src/Socks5/HandshakeResponse/RoundTrip.antt =====
-- The chosen method on the wire and back.
use mobile_android_obfuscati.Common.{ℕ, ◌≡◌, refl}
use mobile_android_obfuscati.Common.{List, [], ◌++◌, ok}
use mobile_android_obfuscati.Socks5.HandshakeResponse.{HandshakeResponse, read_from, write_to_buf}

pub handshake_response_roundtrip :
    (h : HandshakeResponse) (rest : List ℕ) → read_from (write_to_buf h [] ++ rest) ≡ ok (h, rest)
unfolding write_to_buf read_from
handshake_response_roundtrip h rest = refl

-- ===== src/Socks5/HandshakeRequest/RoundTrip.antt =====
-- Method lists on the wire and back.
use mobile_android_obfuscati.Common.{ℕ, ◌+◌, ◌%◌, ◌≤◌, ◌≡◌, ◌↔◌, arith, length, length-append}
use mobile_android_obfuscati.Common.{List, [], ◌∷◌, ◌++◌, ok}
use mobile_android_obfuscati.Common.Bytes.{read_exact_of, read_exact-eq_ok}
use mobile_android_obfuscati.Socks5.Error.{eof}
use mobile_android_obfuscati.Socks5.HandshakeRequest.{
  HandshakeRequest, read_from, write_to_buf, serialized_len,
}

-- The method count is one byte and is not checked when it is written: the request is read back from
-- what was written exactly if it has at most 255 methods.
pub handshake_request_roundtrip_iff :
    (h : HandshakeRequest) (rest : List ℕ)
    → (read_from (write_to_buf h [] ++ rest) ≡ ok (h, rest)) ↔ (length h.methods ≤ 255)
unfolding write_to_buf read_from
handshake_request_roundtrip_iff h rest = (
  λ k.
      ground
        (arith, read_exact-eq_ok eof (length h.methods % 256) (h.methods ++ rest) h.methods rest),
  λ small. ground (arith, read_exact_of eof (length h.methods % 256) h.methods rest),
)

pub length-handshake_request :
    (h : HandshakeRequest) (buf : List ℕ)
    → length (write_to_buf h buf) ≡ length buf + serialized_len h
unfolding write_to_buf serialized_len
length-handshake_request h buf = omega (
  arith,
  length-append (buf ++ 5 ∷ (length h.methods % 256) ∷ []) h.methods,
  length-append buf (5 ∷ (length h.methods % 256) ∷ []),
)

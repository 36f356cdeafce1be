-- ===== src/Examples/Socks4.antt =====
-- Theorem instances for crates/shadowsocks-service/src/local/socks/socks4.rs.
use mobile_android_obfuscati.Common.{◌≡◌, refl, arith, [], ◌∷◌, ◌++◌, ok}
use mobile_android_obfuscati.Common.Utf8.{is_utf8}
use mobile_android_obfuscati.Socks4.Command.{Command}
use mobile_android_obfuscati.Socks4.ResultCode.{ResultCode}
use mobile_android_obfuscati.Socks4.Address.{Address}
use mobile_android_obfuscati.Socks4.HandshakeRequest.{HandshakeRequest, read_from, write_to_buf}
use mobile_android_obfuscati.Socks4.HandshakeRequest.RoundTrip.{IsWire, socks4_request_roundtrip}
use mobile_android_obfuscati.Socks4.HandshakeResponse

abbrev request : HandshakeRequest
request = record {
  cd = Command.connect;
  dst = Address.domain_name_address (b'a' ∷ b'.' ∷ b'b' ∷ []) 80;
  user_id = b'm' ∷ b'e' ∷ [];
}

request-IsWire : IsWire request.dst
unfolding is_utf8
request-IsWire = (omega arith, refl, omega arith)

socks4_request_roundtrip_example :
    read_from (write_to_buf request [] ++ 7 ∷ []) ≡ ok (request, 7 ∷ [])
socks4_request_roundtrip_example =
    socks4_request_roundtrip request (7 ∷ []) request-IsWire (omega arith)

abbrev granted : HandshakeResponse.HandshakeResponse
granted = record { cd = ResultCode.request_granted }

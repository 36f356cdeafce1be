-- ===== src/Examples/Socks5.antt =====
-- Runs and theorem instances for crates/shadowsocks/src/relay/socks5.rs.
use mobile_android_obfuscati.Common.{
  ℕ, ◌≡◌, ◌≤◌, ◌↔◌, refl, arith, List, [], ◌∷◌, ◌++◌, length, ok, err, panic,
}
use mobile_android_obfuscati.Common.Utf8.{is_utf8}
use mobile_android_obfuscati.Socks5
use mobile_android_obfuscati.Socks5.Error.{Error, eof}
use mobile_android_obfuscati.Socks5.Address.{
  Address, read_from, read_cursor, write_to_buf, serialized_len,
}
use mobile_android_obfuscati.Socks5.Address.RoundTrip.{IsWire, encoding, address_roundtrip}
use mobile_android_obfuscati.Socks5.Address.Decode.{address_decoded}
use mobile_android_obfuscati.Socks5.Address.Cursor.{
  IsPortCut, read_cursor_iff, read_cursor-panic_iff,
}
use mobile_android_obfuscati.Socks5.Command
use mobile_android_obfuscati.Socks5.Command.{Command}
use mobile_android_obfuscati.Socks5.Reply.{Reply}
use mobile_android_obfuscati.Socks5.TcpRequestHeader
use mobile_android_obfuscati.Socks5.TcpResponseHeader
use mobile_android_obfuscati.Socks5.UdpAssociateHeader
use mobile_android_obfuscati.Socks5.HandshakeRequest
use mobile_android_obfuscati.Socks5.HandshakeRequest.RoundTrip.{handshake_request_roundtrip_iff}
use mobile_android_obfuscati.Socks5.PasswdAuthRequest

-- `a.io:443`
abbrev name : List ℕ
name = b'a' ∷ b'.' ∷ b'i' ∷ b'o' ∷ []

abbrev addr : Address
addr = Address.domain_name_address name 443

addr-IsWire : IsWire addr
unfolding is_utf8
addr-IsWire = (omega arith, refl, omega arith)

abbrev wire : List ℕ
wire = 3 ∷ 4 ∷ b'a' ∷ b'.' ∷ b'i' ∷ b'o' ∷ 1 ∷ 187 ∷ []

read_wire : read_from (wire ++ 9 ∷ []) ≡ ok (addr, 9 ∷ [])
unfolding read_from is_utf8
read_wire = refl

address_roundtrip_example :
    (bytes : List ℕ) × (write_to_buf {E = Error} addr [] ≡ ok ([] ++ bytes))
    × (length bytes ≡ serialized_len addr)
    × (read_from (bytes ++ 9 ∷ []) ≡ ok (addr, 9 ∷ []))
address_roundtrip_example = address_roundtrip addr [] (9 ∷ []) addr-IsWire

address_decoded_example : IsWire addr × (wire ++ 9 ∷ [] ≡ encoding addr ++ 9 ∷ [])
address_decoded_example = address_decoded addr (9 ∷ []) (wire ++ 9 ∷ []) (omega arith) read_wire

read_cursor_iff_example : (read_cursor wire ≡ ok (addr, [])) ↔ (read_from wire ≡ ok (addr, []))
read_cursor_iff_example = read_cursor_iff (addr, []) wire (omega arith)

read_cursor-panic_iff_example :
    (read_cursor (3 ∷ 1 ∷ b'a' ∷ []) ≡ panic) ↔ IsPortCut (3 ∷ 1 ∷ b'a' ∷ [])
read_cursor-panic_iff_example = read_cursor-panic_iff (3 ∷ 1 ∷ b'a' ∷ [])

-- The stream decoder reports the same input as cut off.
read_cut_port : read_from (3 ∷ 1 ∷ b'a' ∷ []) ≡ err eof
unfolding read_from
read_cut_port = refl

abbrev request : TcpRequestHeader.TcpRequestHeader
request = record { command = Command.tcp_connect; address = addr }

read_request : TcpRequestHeader.read_from (5 ∷ 1 ∷ 7 ∷ wire) ≡ ok (request, [])
unfolding TcpRequestHeader.read_from read_from is_utf8 Socks5.Command.from_u8
read_request = refl

abbrev response : TcpResponseHeader.TcpResponseHeader
response = record { reply = Reply.other_reply 9; address = addr }

abbrev header : UdpAssociateHeader.UdpAssociateHeader
header = record { frag = 0; address = addr }

abbrev offer : HandshakeRequest.HandshakeRequest
offer = record { methods = 0 ∷ 2 ∷ [] }

handshake_request_roundtrip_iff_example :
    (HandshakeRequest.read_from (HandshakeRequest.write_to_buf offer [] ++ []) ≡ ok (offer, []))
    ↔ (2 ≤ 255)
handshake_request_roundtrip_iff_example = handshake_request_roundtrip_iff offer []

abbrev login : PasswdAuthRequest.PasswdAuthRequest
login = record { uname = b'u' ∷ []; passwd = b'p' ∷ b'w' ∷ [] }

new-login : PasswdAuthRequest.new {E = Error} (b'u' ∷ []) (b'p' ∷ b'w' ∷ []) ≡ ok login
unfolding PasswdAuthRequest.new
new-login = refl

-- A buffer that starts as zeros and takes what has come.
abbrev zero_filled : List ℕ → List ℕ
zero_filled [] = 0 ∷ 0 ∷ []
zero_filled (b ∷ r) = b ∷ 0 ∷ []

-- The version byte alone is taken for a success.

-- ===== src/Socks5/Address.antt =====
-- `enum Address` of crates/shadowsocks/src/relay/socks5.rs: its encoding, the stream decoder
-- `read_from` and the cursor decoder `read_cursor`. A domain name is the list of its bytes.
pub mod RoundTrip
pub mod Decode
pub mod Cursor
use mobile_android_obfuscati.Common.{ℕ, suc, ◌+◌, ◌*◌, ◌==◌, ltb, leb, length, get_or, take, drop}
use mobile_android_obfuscati.Common.{if◌then◌else◌, List, [], ◌∷◌, ◌++◌, Bool, true, false}
use mobile_android_obfuscati.Common.{Result, ok, err, panic, ◌>>=◌, IoErrorKind}
use mobile_android_obfuscati.Common.Bytes.{
  be_bytes, be_words, from_be_bytes, read_exact, get_u8, get_uint,
}
use mobile_android_obfuscati.Common.Utf8.{is_utf8}
use mobile_android_obfuscati.Net.{
  SocketAddr, SocketAddrV4, SocketAddrV6, Ipv6Addr, octets, segments, socket_port,
}
use mobile_android_obfuscati.Net.{ipv4_from_u32, ipv6_from_u128}
use mobile_android_obfuscati.Socks5.Error.{Error, eof}

abbrev pub addr_type_ipv4 : ℕ
addr_type_ipv4 = 0x01

abbrev pub addr_type_domain_name : ℕ
addr_type_domain_name = 0x03

abbrev pub addr_type_ipv6 : ℕ
addr_type_ipv6 = 0x04

pub data Address : Type 0 where
  socket_address : SocketAddr → Address
  domain_name_address : List ℕ → ℕ → Address

-- Reading.

abbrev socket_v4 : ℕ → ℕ → ℕ → ℕ → ℕ → Address
socket_v4 a b c d port =
    Address.socket_address
      (SocketAddr.v4 (record { ip = record { a = a; b = b; c = c; d = d }; port = port }))

abbrev socket_v6 : Ipv6Addr → ℕ → Address
socket_v6 ip port =
    Address.socket_address
      (SocketAddr.v6 (record { ip = ip; port = port; flowinfo = 0; scope_id = 0 }))

-- `u16::from_be(buf[i])` of the buffer of 16-bit words.
abbrev word : List ℕ → ℕ → ℕ
word buf i = from_be_bytes (get_or buf (i + i) 0) (get_or buf (suc (i + i)) 0)

-- `String::from_utf8`, with the error that both decoders give.
abbrev domain_from_utf8 : List ℕ → ℕ → Result Error Address
domain_from_utf8 bs port =
    if is_utf8 bs
    then ok (Address.domain_name_address bs port)
    else err Error.address_domain_invalid_encoding

read_ipv4 : List ℕ → Result Error (Address × List ℕ)
unfolding read_exact
read_ipv4 r = do
  (buf, rest) ← read_exact eof 6 r
  let port = from_be_bytes (get_or buf 4 0) (get_or buf 5 0)
  ok (socket_v4 (get_or buf 0 0) (get_or buf 1 0) (get_or buf 2 0) (get_or buf 3 0) port, rest)

read_ipv6 : List ℕ → Result Error (Address × List ℕ)
unfolding read_exact
read_ipv6 r = do
  (buf, rest) ← read_exact eof 18 r
  let ip : Ipv6Addr = record {
    s0 = word buf 0;
    s1 = word buf 1;
    s2 = word buf 2;
    s3 = word buf 3;
    s4 = word buf 4;
    s5 = word buf 5;
    s6 = word buf 6;
    s7 = word buf 7;
  }
  ok (socket_v6 ip (word buf 8), rest)

read_domain_name : List ℕ → Result Error (Address × List ℕ)
unfolding read_exact
read_domain_name r = do
  (length_buf, r1) ← read_exact eof 1 r
  let len = get_or length_buf 0 0
  (raw_addr, rest) ← read_exact eof (len + 2) r1
  let raw_port = drop len raw_addr
  let port = from_be_bytes (get_or raw_port 0 0) (get_or raw_port 1 0)
  addr ← domain_from_utf8 (take len raw_addr) port
  ok (addr, rest)

read_tagged : ℕ → List ℕ → Result Error (Address × List ℕ)
read_tagged addr_type r =
    if addr_type == addr_type_ipv4
    then read_ipv4 r
    else if addr_type == addr_type_ipv6
    then read_ipv6 r
    else if addr_type == addr_type_domain_name
    then read_domain_name r
    else err (Error.address_type_not_supported addr_type)

unfoldable pub read_from : List ℕ → Result Error (Address × List ℕ)
unfolding read_exact read_tagged read_ipv4 read_ipv6 read_domain_name
read_from r = do (addr_type_buf, r1) ← read_exact eof 1 r; read_tagged (get_or addr_type_buf 0 0) r1

-- `read_cursor`: the rest of the cursor is returned too. `get_uint` panics past the end.
abbrev invalid_buf : Error
invalid_buf = Error.io_error IoErrorKind.other_kind

cursor_ipv4 : List ℕ → Result Error (Address × List ℕ)
unfolding get_uint
cursor_ipv4 cur = if ltb (length cur) 6 then err invalid_buf else do
  (addr, c1) ← get_uint 4 0 cur
  (port, c2) ← get_uint 2 0 c1
  let ip = ipv4_from_u32 addr
  ok (Address.socket_address (SocketAddr.v4 (record { ip = ip; port = port })), c2)

cursor_ipv6 : List ℕ → Result Error (Address × List ℕ)
unfolding get_uint
cursor_ipv6 cur = if ltb (length cur) 18 then err invalid_buf else do
  (addr, c1) ← get_uint 16 0 cur
  (port, c2) ← get_uint 2 0 c1
  ok (socket_v6 (ipv6_from_u128 addr) port, c2)

cursor_domain_name : List ℕ → Result Error (Address × List ℕ)
unfolding get_u8 get_uint
cursor_domain_name cur = do
  (domain_len, c1) ← get_u8 cur
  if ltb (length c1) domain_len then err Error.address_domain_invalid_encoding else do
    (port, c2) ← get_uint 2 0 (drop domain_len c1)
    addr ← domain_from_utf8 (take domain_len c1) port
    ok (addr, c2)

cursor_tagged : ℕ → List ℕ → Result Error (Address × List ℕ)
cursor_tagged atyp cur =
    if atyp == addr_type_ipv4
    then cursor_ipv4 cur
    else if atyp == addr_type_ipv6
    then cursor_ipv6 cur
    else if atyp == addr_type_domain_name
    then cursor_domain_name cur
    else err (Error.address_type_not_supported atyp)

unfoldable pub read_cursor : List ℕ → Result Error (Address × List ℕ)
unfolding get_u8 get_uint cursor_tagged cursor_ipv4 cursor_ipv6 cursor_domain_name
read_cursor cur =
    if ltb (length cur) 2
    then err invalid_buf
    else do (atyp, c1) ← get_u8 cur; cursor_tagged atyp c1

-- Writing: the buffer with the address appended; an assertion that fails is a panic.

write_ipv4_address : SocketAddrV4 → List ℕ → List ℕ
write_ipv4_address addr buf = buf ++ addr_type_ipv4 ∷ (octets addr.ip ++ be_bytes addr.port)

write_ipv6_address : SocketAddrV6 → List ℕ → List ℕ
write_ipv6_address addr buf =
    buf ++ addr_type_ipv6 ∷ (be_words (segments addr.ip) ++ be_bytes addr.port)

write_domain_name_address {ℓ} : {E : Type ℓ} → List ℕ → ℕ → List ℕ → Result E (List ℕ)
write_domain_name_address dnaddr port buf =
    if leb (length dnaddr) 255
    then ok (buf ++ addr_type_domain_name ∷ length dnaddr ∷ (dnaddr ++ be_bytes port))
    else panic

unfoldable pub write_to_buf {ℓ} : {E : Type ℓ} → Address → List ℕ → Result E (List ℕ)
unfolding write_ipv4_address write_ipv6_address write_domain_name_address
write_to_buf (Address.socket_address (SocketAddr.v4 addr)) buf = ok (write_ipv4_address addr buf)
write_to_buf (Address.socket_address (SocketAddr.v6 addr)) buf = ok (write_ipv6_address addr buf)
write_to_buf (Address.domain_name_address dnaddr port) buf =
    write_domain_name_address dnaddr port buf

-- `write_all` of a buffer of its own; the writer is what it has been given so far.
unfoldable pub write_to {ℓ} : {E : Type ℓ} → Address → List ℕ → Result E (List ℕ)
write_to addr writer = do buf ← write_to_buf addr []; ok (writer ++ buf)

unfoldable pub serialized_len : Address → ℕ
serialized_len (Address.socket_address (SocketAddr.v4 addr)) = 1 + 4 + 2
serialized_len (Address.socket_address (SocketAddr.v6 addr)) = 1 + 8 * 2 + 2
serialized_len (Address.domain_name_address dmname port) = 1 + 1 + length dmname + 2

abbrev pub max_serialized_len : ℕ
max_serialized_len = 1 + 1 + 255 + 2

unfoldable pub port : Address → ℕ
port (Address.socket_address addr) = socket_port addr
port (Address.domain_name_address dn p) = p

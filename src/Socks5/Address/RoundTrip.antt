-- ===== src/Socks5/Address/RoundTrip.antt =====
-- What `write_to_buf` appends, and that `read_from` reads it back.
use mobile_android_obfuscati.Common.{ℕ, ◌+◌, ◌/◌, ◌%◌, ◌≤◌, ◌≡◌, refl, arith, true}
use mobile_android_obfuscati.Common.{List, [], ◌∷◌, ◌++◌, length, length-append, ok, take, drop}
use mobile_android_obfuscati.Common.Bytes.{IsU16, be_bytes, be_words, read_exact_of}
use mobile_android_obfuscati.Common.Utf8.{is_utf8}
use mobile_android_obfuscati.Net.{SocketAddr, IsIpv4, IsIpv6, octets, segments}
use mobile_android_obfuscati.Socks5.Error.{Error, eof}
use mobile_android_obfuscati.Socks5.Address.{
  Address, read_from, write_to_buf, serialized_len, max_serialized_len,
}
use mobile_android_obfuscati.Socks5.Address.{read_domain_name}

-- The addresses that have an encoding: machine integers in range, no flow label and no scope, and a
-- UTF-8 domain name of at most 255 bytes.
abbrev pub IsWire : Address → Type 0
IsWire (Address.socket_address (SocketAddr.v4 s)) = IsIpv4 s.ip × IsU16 s.port
IsWire (Address.socket_address (SocketAddr.v6 s)) =
    IsIpv6 s.ip × IsU16 s.port × (s.flowinfo ≡ 0) × (s.scope_id ≡ 0)
IsWire (Address.domain_name_address dn port) = (length dn ≤ 255) × (is_utf8 dn ≡ true) × IsU16 port

-- The encoding of RFC 1928, section 5.
abbrev pub encoding : Address → List ℕ
encoding (Address.socket_address (SocketAddr.v4 s)) = 1 ∷ (octets s.ip ++ be_bytes s.port)
encoding (Address.socket_address (SocketAddr.v6 s)) =
    4 ∷ (be_words (segments s.ip) ++ be_bytes s.port)
encoding (Address.domain_name_address dn port) = 3 ∷ length dn ∷ (dn ++ be_bytes port)

pub write_to_buf-encoding {ℓ} :
    {E : Type ℓ} (addr : Address) (buf : List ℕ)
    → IsWire addr
    → write_to_buf {E = E} addr buf ≡ ok (buf ++ encoding addr)
unfolding write_to_buf
write_to_buf-encoding (Address.socket_address (SocketAddr.v4 s)) buf h = refl
write_to_buf-encoding (Address.socket_address (SocketAddr.v6 s)) buf h = refl
write_to_buf-encoding (Address.domain_name_address dn port) buf h = ground arith

pub length-encoding : (addr : Address) → length (encoding addr) ≡ serialized_len addr
unfolding serialized_len
length-encoding (Address.socket_address (SocketAddr.v4 s)) = refl
length-encoding (Address.socket_address (SocketAddr.v6 s)) = refl
length-encoding (Address.domain_name_address dn port) =
    omega (arith, length-append dn (be_bytes port))

pub domain_parts :
    (dn : List ℕ) (a b : ℕ)
    → (take (length dn) (dn ++ a ∷ b ∷ []) ≡ dn)
      × (drop (length dn) (dn ++ a ∷ b ∷ []) ≡ a ∷ b ∷ [])
domain_parts [] a b = (refl, refl)
domain_parts (x ∷ dn) a b = let (p, q) = domain_parts dn a b in ground arith

read_domain_name-encoding :
    (dn rest : List ℕ) (port : ℕ)
    → is_utf8 dn ≡ true
    → read_domain_name (length dn ∷ (dn ++ be_bytes port ++ rest))
      ≡ ok (Address.domain_name_address dn port, rest)
unfolding read_domain_name
read_domain_name-encoding dn rest port u =
    let (front, back) = domain_parts dn (port / 256) (port % 256) in
    rw
      (
        read_exact_of eof (length dn + 2) (dn ++ be_bytes port) rest
            (length-append dn (be_bytes port)),
        front,
        back,
        u,
      )
      (ground arith)

pub read_from-encoding :
    (addr : Address) (rest : List ℕ)
    → IsWire addr
    → read_from (encoding addr ++ rest) ≡ ok (addr, rest)
read_from-encoding (Address.socket_address (SocketAddr.v4 s)) rest h =
    unfold read_from in ground arith
read_from-encoding (Address.socket_address (SocketAddr.v6 s)) rest h =
    unfold read_from in ground arith
read_from-encoding (Address.domain_name_address dn port) rest h =
    unfold read_from in read_domain_name-encoding dn rest port h.1

-- `write_to_buf` appends the bytes, as many as `serialized_len` says, from which `read_from` reads
-- the address back, up to whatever follows, for every address in wire range.
pub address_roundtrip :
    (addr : Address) (buf rest : List ℕ)
    → IsWire addr
    → (bytes : List ℕ) × (write_to_buf {E = Error} addr buf ≡ ok (buf ++ bytes))
      × (length bytes ≡ serialized_len addr)
      × (read_from (bytes ++ rest) ≡ ok (addr, rest))
address_roundtrip addr buf rest h = (
  encoding addr,
  write_to_buf-encoding addr buf h,
  length-encoding addr,
  read_from-encoding addr rest h,
)

-- No address in wire range has an encoding longer than `max_serialized_len`.
pub serialized_len-le-max :
    (addr : Address) → IsWire addr → serialized_len addr ≤ max_serialized_len
unfolding serialized_len
serialized_len-le-max (Address.socket_address (SocketAddr.v4 s)) h = omega arith
serialized_len-le-max (Address.socket_address (SocketAddr.v6 s)) h = omega arith
serialized_len-le-max (Address.domain_name_address dn port) h = omega arith

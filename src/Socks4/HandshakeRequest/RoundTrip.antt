-- ===== src/Socks4/HandshakeRequest/RoundTrip.antt =====
-- SOCKS4 and SOCKS4a requests on the wire and back.
use mobile_android_obfuscati.Common.{
  ℕ, zero, suc, ◌≡◌, ◌≢◌, ◌+◌, ◌⊎◌, refl, arith, List, [], ◌∷◌, ◌++◌, ok, err, length,
  length-append, true, All, some,
}
use mobile_android_obfuscati.Common.Bytes.{read_until_nul, IsU16}
use mobile_android_obfuscati.Common.Utf8.{is_utf8}
use mobile_android_obfuscati.Net.{SocketAddrV4, IsIpv4}
use mobile_android_obfuscati.Socks4.Error.{Error}
use mobile_android_obfuscati.Socks4.Command.{Command, as_u8, from_u8}
use mobile_android_obfuscati.Socks4.Address.{Address}
use mobile_android_obfuscati.Socks4.HandshakeRequest.{
  HandshakeRequest, strip_nul, read_nul_terminated, read_host, read_destination, read_from,
  write_to_buf, write_destination, serialized_len,
}
use mathlib.Core.List.{append_assoc}

abbrev pub HasNoNul : List ℕ → Type 0
HasNoNul = All (λ b. b ≢ 0)

-- What a SOCKS4 request can carry: no NUL in its strings, a UTF-8 host, and no address 0.0.0.x that
-- is read as the mark of a host name.
abbrev pub IsWire : Address → Type 0
IsWire (Address.socket_address s) =
    IsIpv4 s.ip × IsU16 s.port × ((s.ip.a + s.ip.b + s.ip.c ≢ 0) ⊎ (s.ip.d ≡ 0))
IsWire (Address.domain_name_address dn port) = HasNoNul dn × (is_utf8 dn ≡ true) × IsU16 port

from_u8-as_u8 : (cd : Command) → from_u8 (as_u8 cd) ≡ some cd
unfolding from_u8 as_u8
from_u8-as_u8 Command.connect = refl
from_u8-as_u8 Command.bind = refl

read_until_nul-append :
    (s rest : List ℕ) → HasNoNul s → read_until_nul (s ++ 0 ∷ rest) ≡ (s ++ 0 ∷ [], rest)
unfolding read_until_nul
read_until_nul-append [] rest h = refl
read_until_nul-append (zero ∷ s) rest h = absurd (h.0 refl)
read_until_nul-append (suc b ∷ s) rest h = rw (read_until_nul-append s rest h.1)

strip_nul-append : (s : List ℕ) → strip_nul (s ++ 0 ∷ []) ≡ some s
unfolding strip_nul
strip_nul-append [] = refl
strip_nul-append (b ∷ []) = refl
strip_nul-append (b ∷ c ∷ s) = rw (strip_nul-append (c ∷ s))

read_nul_terminated-append :
    (s rest : List ℕ) → HasNoNul s → read_nul_terminated (s ++ 0 ∷ rest) ≡ ok (s, rest)
unfolding read_nul_terminated
read_nul_terminated-append s rest h =
    ground (arith, read_until_nul-append s rest h, strip_nul-append s)

read_host-append :
    (dn rest : List ℕ) (port : ℕ)
    → HasNoNul dn
    → is_utf8 dn ≡ true
    → read_host port (dn ++ 0 ∷ rest) ≡ ok (Address.domain_name_address dn port, rest)
unfolding read_host
read_host-append dn rest port h u = rw (read_nul_terminated-append dn rest h, u) refl

-- The two forms of the destination, behind version and command.
read_from_socket :
    (h : HandshakeRequest) (s : SocketAddrV4) (rest : List ℕ)
    → h.dst ≡ Address.socket_address s
    → IsWire (Address.socket_address s)
    → HasNoNul h.user_id
    → read_from (4 ∷ as_u8 h.cd ∷ (write_destination (Address.socket_address s) h.user_id ++ rest))
      ≡ ok (h, rest)
unfolding read_from read_destination write_destination
read_from_socket h s rest e w nul = ground (
  arith,
  from_u8-as_u8 h.cd,
  append_assoc h.user_id (0 ∷ []) rest,
  read_nul_terminated-append h.user_id rest nul,
)

read_from_host :
    (h : HandshakeRequest) (dn : List ℕ) (port : ℕ) (rest : List ℕ)
    → h.dst ≡ Address.domain_name_address dn port
    → IsWire (Address.domain_name_address dn port)
    → HasNoNul h.user_id
    → read_from (
        4
        ∷ as_u8 h.cd
        ∷ (write_destination (Address.domain_name_address dn port) h.user_id ++ rest))
      ≡ ok (h, rest)
unfolding read_from read_destination write_destination
read_from_host h dn port rest e w nul = ground (
  arith,
  from_u8-as_u8 h.cd,
  append_assoc h.user_id (0 ∷ (dn ++ 0 ∷ [])) rest,
  append_assoc dn (0 ∷ []) rest,
  read_nul_terminated-append h.user_id (dn ++ 0 ∷ rest) nul,
  read_host-append dn rest port w.0 w.1,
)

-- A request with a destination in wire range and no NUL in its user id is read back from what is
-- written, up to whatever follows.
pub socks4_request_roundtrip :
    (h : HandshakeRequest) (rest : List ℕ)
    → IsWire h.dst
    → HasNoNul h.user_id
    → read_from (write_to_buf h [] ++ rest) ≡ ok (h, rest)
unfolding write_to_buf
socks4_request_roundtrip h rest w nul = go h.dst refl w
  where
    go :
        (dst : Address)
        → h.dst ≡ dst
        → IsWire dst
        → read_from (4 ∷ as_u8 h.cd ∷ (write_destination h.dst h.user_id ++ rest)) ≡ ok (h, rest)
    go (Address.socket_address s) e w' = simp e (read_from_socket h s rest e w' nul)
    go (Address.domain_name_address dn port) e w' = simp e (read_from_host h dn port rest e w' nul)

-- As many bytes are written as `serialized_len` says.
pub length-socks4_request : (h : HandshakeRequest) → length (write_to_buf h []) ≡ serialized_len h
unfolding write_to_buf write_destination serialized_len
length-socks4_request h = go h.dst refl
  where
    go : (dst : Address) → h.dst ≡ dst → length (write_to_buf h []) ≡ serialized_len h
    go (Address.socket_address s) e = rw e (omega (arith, length-append h.user_id (0 ∷ [])))
    go (Address.domain_name_address dn port) e =
        rw e
          (omega (arith, length-append h.user_id (0 ∷ (dn ++ 0 ∷ [])), length-append dn (0 ∷ [])))

module _ (c : ℕ) where
  read_nul_terminated-error :
      (r : List ℕ) → read_nul_terminated r ≢ err (Error.unsupported_command c)
  unfolding read_nul_terminated
  read_nul_terminated-error r = ground arith

  read_destination-error :
      (buf r : List ℕ) → read_destination buf r ≢ err (Error.unsupported_command c)
  unfolding read_destination read_host
  read_destination-error buf r = ground (arith, read_nul_terminated-error r)

  read_body_error :
      (a b p q w x y z : ℕ) (r : List ℕ)
      → read_from (a ∷ b ∷ p ∷ q ∷ w ∷ x ∷ y ∷ z ∷ r) ≢ err (Error.unsupported_command c)
  unfolding read_from
  read_body_error a b p q w x y z r =
      grind (arith, read_nul_terminated-error, read_destination-error)

  -- The error for an unsupported command is never given, on any input: an unknown command is reported
  -- as an unsupported version.
  pub read_from-ne-unsupported_command :
      (r : List ℕ) → read_from r ≢ err (Error.unsupported_command c)
  unfolding read_from
  read_from-ne-unsupported_command (a ∷ b ∷ p ∷ q ∷ w ∷ x ∷ y ∷ z ∷ r) =
      read_body_error a b p q w x y z r
  read_from-ne-unsupported_command _ = λ e. cc

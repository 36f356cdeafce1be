-- ===== src/Socks5/Address/Decode.antt =====
-- What a successful `read_from` has read.
use mobile_android_obfuscati.Common.{ℕ, ◌+◌, ◌*◌, ◌≡◌, refl, arith}
use mobile_android_obfuscati.Common.{List, [], ◌∷◌, ◌++◌, length, length-append, ok, All}
use mobile_android_obfuscati.Common.{zero, suc, subst, All-of_append, >>=-eq-ok}
use mobile_android_obfuscati.Common.Bytes.{
  IsByte, read_exact-eq_ok, read_exact_of, be_bytes, read_exact,
}
use mobile_android_obfuscati.Socks5.Error.{eof}
use mobile_android_obfuscati.Socks5.Address.{Address, read_from, read_tagged, read_ipv4, read_ipv6}
use mobile_android_obfuscati.Socks5.Address.{read_domain_name}
use mobile_android_obfuscati.Socks5.Address.RoundTrip.{IsWire, encoding, domain_parts}

abbrev Decoded : List ℕ → Address → List ℕ → Type 0
Decoded r addr rest = IsWire addr × (r ≡ encoding addr ++ rest)

be_bytes_of : (a b : ℕ) → IsByte a → IsByte b → be_bytes (a * 256 + b) ≡ a ∷ b ∷ []
be_bytes_of a b ha hb = ground arith

split_port :
    (n : ℕ) (raw : List ℕ)
    → length raw ≡ n + 2
    → (dn : List ℕ) × (a : ℕ) × (b : ℕ) × (raw ≡ dn ++ a ∷ b ∷ []) × (length dn ≡ n)
split_port zero (a ∷ b ∷ []) h = ([], a, b, refl, refl)
split_port zero (a ∷ b ∷ c ∷ raw) h = absurd (omega arith)
split_port zero (a ∷ []) h = absurd (omega arith)
split_port zero [] h = absurd (omega arith)
split_port (suc n) [] h = absurd (omega arith)
split_port (suc n) (x ∷ raw) h =
    let (dn, a, b, p, q) = split_port n raw (omega arith) in (x ∷ dn, a, b, rw p, omega arith)

read_from-tagged :
    (t : ℕ) (r : List ℕ) (out : Address × List ℕ)
    → read_from (t ∷ r) ≡ ok out
    → read_tagged t r ≡ ok out
unfolding read_from
read_from-tagged t r out k = k

module _ (addr : Address) (rest : List ℕ) where
  read_ipv4-eq_ok :
      (r : List ℕ) → All IsByte r → read_ipv4 r ≡ ok (addr, rest) → Decoded (1 ∷ r) addr rest
  unfolding read_ipv4
  read_ipv4-eq_ok (a ∷ b ∷ c ∷ d ∷ e ∷ f ∷ r) h k = ground arith
  read_ipv4-eq_ok _ h k = ground arith

  read_ipv6-eq_ok :
      (r : List ℕ) → All IsByte r → read_ipv6 r ≡ ok (addr, rest) → Decoded (4 ∷ r) addr rest
  unfolding read_ipv6
  read_ipv6-eq_ok
        (b0 ∷ b1 ∷ b2 ∷ b3 ∷ b4 ∷ b5 ∷ b6 ∷ b7 ∷ b8 ∷ b9 ∷ b10 ∷ b11 ∷ b12 ∷ b13 ∷ b14 ∷ b15 ∷ b16
          ∷ b17 ∷ r)
        h k =
      ground arith
  read_ipv6-eq_ok _ h k = ground arith

  read_domain_name_parts :
      (dn : List ℕ) (a b : ℕ) (rest' : List ℕ)
      → All IsByte (length dn ∷ (dn ++ a ∷ b ∷ [] ++ rest'))
      → read_domain_name (length dn ∷ (dn ++ a ∷ b ∷ [] ++ rest')) ≡ ok (addr, rest)
      → Decoded (3 ∷ length dn ∷ (dn ++ a ∷ b ∷ [] ++ rest')) addr rest
  unfolding read_domain_name
  read_domain_name_parts dn a b rest' (hn, h) k =
      let (front, back) = domain_parts dn a b in
      let (_, ab) =
        All-of_append IsByte dn (a ∷ b ∷ []) (All-of_append IsByte (dn ++ a ∷ b ∷ []) rest' h).0 in
      let ha : IsByte a = ab.0 in
      let hb : IsByte b = ab.1.0 in
      ground (
        arith,
        front,
        back,
        be_bytes_of a b ha hb,
        read_exact_of eof (length dn + 2) (dn ++ a ∷ b ∷ []) rest' (length-append dn (a ∷ b ∷ [])),
      )

  read_domain_name-eq_ok :
      (r : List ℕ) → All IsByte r → read_domain_name r ≡ ok (addr, rest) → Decoded (3 ∷ r) addr rest
  unfolding read_domain_name
  read_domain_name-eq_ok [] h k = cc
  read_domain_name-eq_ok (n ∷ r) h k =
      let ((raw, rest'), e, k') = >>=-eq-ok (read_exact eof (n + 2) r) _ k in
      let (whole, len) = read_exact-eq_ok eof (n + 2) r raw rest' e in
      let (dn, a, b, split, len') = split_port n raw len in
      let shape : length dn ∷ (dn ++ a ∷ b ∷ [] ++ rest') ≡ n ∷ r = cc in
      subst (λ t. All IsByte t → read_domain_name t ≡ ok (addr, rest) → Decoded (3 ∷ t) addr rest)
        shape (read_domain_name_parts dn a b rest') h k

  read_tagged-eq_ok :
      (t : ℕ) (r : List ℕ)
      → All IsByte r
      → read_tagged t r ≡ ok (addr, rest)
      → Decoded (t ∷ r) addr rest
  unfolding read_tagged
  read_tagged-eq_ok t r h k =
      ground (arith, read_ipv4-eq_ok r h, read_ipv6-eq_ok r h, read_domain_name-eq_ok r h)

  -- A successful `read_from` of bytes yields an address in wire range, and has consumed exactly the
  -- encoding of that address.
  pub address_decoded :
      (r : List ℕ)
      → All IsByte r
      → read_from r ≡ ok (addr, rest)
      → IsWire addr × (r ≡ encoding addr ++ rest)
  address_decoded [] h k = unfold read_from in cc
  address_decoded (t ∷ r) (ht, h) k = read_tagged-eq_ok t r h (read_from-tagged t r (addr, rest) k)

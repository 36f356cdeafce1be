-- ===== src/Socks5/Address/Cursor.antt =====
-- `read_cursor` against `read_from`, and where it panics.
use mobile_android_obfuscati.Common.{
  ◌≢◌, sym, dec_lt, ◌>>=◌, take-length_append, drop-length_append, split_at, subst, ap, ℕ, ◌+◌, ◌*◌,
  ◌≤◌, ◌<◌, ◌≡◌, refl, arith, ◌∙◌, ◌↔◌,
}
use mobile_android_obfuscati.Common.{
  List, [], ◌∷◌, ◌++◌, length, length-append, ok, err, panic, All,
}
use mobile_android_obfuscati.Common.Bytes.{
  IsByte, IsU16, get_uint, read_exact_of, read_exact_short, from_be_bytes,
}
use mobile_android_obfuscati.Net.{ipv6_from_u128}
use mobile_android_obfuscati.Socks5.Error.{Error, eof}
use mobile_android_obfuscati.Socks5.Address.{
  Address, domain_from_utf8, read_tagged, read_from, read_ipv4, read_ipv6, read_domain_name,
}
use mobile_android_obfuscati.Socks5.Address.{
  read_cursor, cursor_tagged, cursor_ipv4, cursor_ipv6, cursor_domain_name,
}
use mobile_android_obfuscati.Socks5.Address.RoundTrip.{domain_parts}
use mathlib.Core.List.{append_assoc}

-- The segments of a 128-bit number that is put together from its bytes.
abbrev u128 : ℕ → ℕ → ℕ → ℕ → ℕ → ℕ → ℕ → ℕ → ℕ
u128 a b c d e f g h =
    ((((((a * 65536 + b) * 65536 + c) * 65536 + d) * 65536 + e) * 65536 + f) * 65536 + g) * 65536
    + h

u128_segments :
    (a b c d e f g h : ℕ)
    → IsU16 a
    → IsU16 b
    → IsU16 c
    → IsU16 d
    → IsU16 e
    → IsU16 f
    → IsU16 g
    → IsU16 h
    → ipv6_from_u128 (u128 a b c d e f g h)
      ≡ record { s0 = a; s1 = b; s2 = c; s3 = d; s4 = e; s5 = f; s6 = g; s7 = h }
u128_segments a b c d e f g h ha hb hc hd he hf hg hh = ground arith

module _ (out : Address × List ℕ) where
  cursor_ipv4_iff : (r : List ℕ) → All IsByte r → (cursor_ipv4 r ≡ ok out) ↔ (read_ipv4 r ≡ ok out)
  unfolding cursor_ipv4 read_ipv4
  cursor_ipv4_iff (a ∷ b ∷ c ∷ d ∷ e ∷ f ∷ r) h = ground arith
  cursor_ipv4_iff _ h = ground arith

  cursor_ipv6_iff : (r : List ℕ) → All IsByte r → (cursor_ipv6 r ≡ ok out) ↔ (read_ipv6 r ≡ ok out)
  unfolding cursor_ipv6 read_ipv6
  cursor_ipv6_iff
        (b0 ∷ b1 ∷ b2 ∷ b3 ∷ b4 ∷ b5 ∷ b6 ∷ b7 ∷ b8 ∷ b9 ∷ b10 ∷ b11 ∷ b12 ∷ b13 ∷ b14 ∷ b15 ∷ b16
          ∷ b17 ∷ r)
        h =
      let w : ℕ → ℕ → ℕ = from_be_bytes in
      let n =
        u128 (w b0 b1) (w b2 b3) (w b4 b5) (w b6 b7) (w b8 b9) (w b10 b11) (w b12 b13)
          (w b14 b15) in
      let e : get_uint {E = Error} 16 0 (
            b0 ∷ b1 ∷ b2 ∷ b3 ∷ b4 ∷ b5 ∷ b6 ∷ b7 ∷ b8 ∷ b9 ∷ b10 ∷ b11 ∷ b12 ∷ b13 ∷ b14 ∷ b15
            ∷ b16 ∷ b17 ∷ r)
          ≡ ok (n, b16 ∷ b17 ∷ r) =
        ap (λ m. ok (m, b16 ∷ b17 ∷ r)) (omega arith) in
      ground (
        arith,
        u128_segments (w b0 b1) (w b2 b3) (w b4 b5) (w b6 b7) (w b8 b9) (w b10 b11) (w b12 b13)
            (w b14 b15),
      )
  cursor_ipv6_iff _ h = ground arith

-- The domain name, on the bytes behind the name: `tail` is what is left for the port.
cursor_domain_name_tail :
    (dn tail : List ℕ)
    → cursor_domain_name (length dn ∷ (dn ++ tail)) ≡ (
        ◌>>=◌ {B = Address × List ℕ} (get_uint 2 0 tail) λ (port, c2).
          ◌>>=◌ {B = Address × List ℕ} (domain_from_utf8 dn port) λ addr. ok (addr, c2))
unfolding cursor_domain_name
cursor_domain_name_tail dn tail =
    rw (take-length_append, drop-length_append) (ground (arith, length-append dn tail))

cursor_domain_name_short :
    (n : ℕ) (r : List ℕ)
    → length r < n
    → cursor_domain_name (n ∷ r) ≡ err Error.address_domain_invalid_encoding
unfolding cursor_domain_name
cursor_domain_name_short n r h = ground arith

read_domain_name_tail :
    (dn rest : List ℕ) (a b : ℕ)
    → read_domain_name (length dn ∷ (dn ++ a ∷ b ∷ rest)) ≡ (
        ◌>>=◌ {B = Address × List ℕ}
          (domain_from_utf8 dn (from_be_bytes a b))
          λ addr. ok (addr, rest))
unfolding read_domain_name
read_domain_name_tail dn rest a b =
    let (front, back) = domain_parts dn a b in
    ground (
      arith,
      front,
      back,
      append_assoc dn (a ∷ b ∷ []) rest,
      read_exact_of eof (length dn + 2) (dn ++ a ∷ b ∷ []) rest (length-append dn (a ∷ b ∷ [])),
    )

read_domain_name_short :
    (n : ℕ) (r : List ℕ) → length r < n + 2 → read_domain_name (n ∷ r) ≡ err eof
unfolding read_domain_name
read_domain_name_short n r h = rw (read_exact_short eof (n + 2) r h)

read_cursor-tagged : (t b : ℕ) (r : List ℕ) → read_cursor (t ∷ b ∷ r) ≡ cursor_tagged t (b ∷ r)
unfolding read_cursor
read_cursor-tagged t b r = unfold cursor_tagged in ground arith

read_from-tagged : (t : ℕ) (r : List ℕ) → read_from (t ∷ r) ≡ read_tagged t r
unfolding read_from
read_from-tagged t r = refl

module _ (out : Address × List ℕ) where
  cursor_domain_name_parts :
      (dn tail : List ℕ)
      → (cursor_domain_name (length dn ∷ (dn ++ tail)) ≡ ok out)
        ↔ (read_domain_name (length dn ∷ (dn ++ tail)) ≡ ok out)
  unfolding get_uint
  cursor_domain_name_parts dn [] = ground (
    arith,
    cursor_domain_name_tail dn [],
    length-append dn [],
    read_domain_name_short (length dn) (dn ++ []),
  )
  cursor_domain_name_parts dn (a ∷ []) = ground (
    arith,
    cursor_domain_name_tail dn (a ∷ []),
    length-append dn (a ∷ []),
    read_domain_name_short (length dn) (dn ++ a ∷ []),
  )
  cursor_domain_name_parts dn (a ∷ b ∷ rest) =
      ground (arith, cursor_domain_name_tail dn (a ∷ b ∷ rest), read_domain_name_tail dn rest a b)

  cursor_domain_name_iff :
      (n : ℕ) (r : List ℕ)
      → (cursor_domain_name (n ∷ r) ≡ ok out) ↔ (read_domain_name (n ∷ r) ≡ ok out)
  cursor_domain_name_iff n r = elim (dec_lt (length r) n) [
    | yes short ↦
        ground (arith, cursor_domain_name_short n r short, read_domain_name_short n r (omega arith))
    | no long ↦
        let (dn, tail, split, len) = split_at n r (omega arith) in
        subst (λ t. (cursor_domain_name t ≡ ok out) ↔ (read_domain_name t ≡ ok out))
          (let e : length dn ∷ (dn ++ tail) ≡ n ∷ r = cc in e) (cursor_domain_name_parts dn tail)
  ]

  cursor_tagged_iff :
      (t b : ℕ) (r : List ℕ)
      → All IsByte (b ∷ r)
      → (cursor_tagged t (b ∷ r) ≡ ok out) ↔ (read_tagged t (b ∷ r) ≡ ok out)
  unfolding cursor_tagged read_tagged
  cursor_tagged_iff t b r h = ground (
    arith,
    cursor_ipv4_iff out (b ∷ r) h,
    cursor_ipv6_iff out (b ∷ r) h,
    cursor_domain_name_iff b r,
  )

  -- On any bytes, the cursor decoder and the stream decoder succeed with the same address and the same
  -- rest, and on the same inputs.
  pub read_cursor_iff :
      (r : List ℕ) → All IsByte r → (read_cursor r ≡ ok out) ↔ (read_from r ≡ ok out)
  read_cursor_iff [] h = unfold read_cursor read_from in ground arith
  read_cursor_iff (t ∷ []) h = unfold read_cursor read_from in ground arith
  read_cursor_iff (t ∷ b ∷ r) h =
      rw (read_cursor-tagged, read_from-tagged) (cursor_tagged_iff t b r h.1)

-- The cursors of a domain name whose port is cut off.
abbrev pub IsPortCut : List ℕ → Type 0
IsPortCut (t ∷ n ∷ r) = (t ≡ 3) × (n ≤ length r) × (length r < n + 2)
IsPortCut _ = ⊥

cursor_ip-ne-panic : (r : List ℕ) → (cursor_ipv4 r ≢ panic) × (cursor_ipv6 r ≢ panic)
unfolding cursor_ipv4 cursor_ipv6
cursor_ip-ne-panic
      (b0 ∷ b1 ∷ b2 ∷ b3 ∷ b4 ∷ b5 ∷ b6 ∷ b7 ∷ b8 ∷ b9 ∷ b10 ∷ b11 ∷ b12 ∷ b13 ∷ b14 ∷ b15 ∷ b16
        ∷ b17 ∷ r) =
    ground arith
cursor_ip-ne-panic _ = ground arith

cursor_domain_name_parts-panic :
    (dn tail : List ℕ) → (cursor_domain_name (length dn ∷ (dn ++ tail)) ≡ panic) ↔ (length tail < 2)
unfolding get_uint
cursor_domain_name_parts-panic dn [] = ground (arith, cursor_domain_name_tail dn [])
cursor_domain_name_parts-panic dn (a ∷ []) = ground (arith, cursor_domain_name_tail dn (a ∷ []))
cursor_domain_name_parts-panic dn (a ∷ b ∷ r) =
    ground (arith, cursor_domain_name_tail dn (a ∷ b ∷ r))

cursor_domain_name-panic_iff :
    (n : ℕ) (r : List ℕ)
    → (cursor_domain_name (n ∷ r) ≡ panic) ↔ ((n ≤ length r) × (length r < n + 2))
cursor_domain_name-panic_iff n r = elim (dec_lt (length r) n) [
  | yes short ↦ ground (arith, cursor_domain_name_short n r short)
  | no long ↦
      let (dn, tail, split, len) = split_at n r (omega arith) in
      let e : length dn ∷ (dn ++ tail) ≡ n ∷ r = cc in
      let same : length r ≡ length dn + length tail = rw split (length-append dn tail) in
      let (p, q) = cursor_domain_name_parts-panic dn tail in
      (
        λ k. (omega arith, omega (arith, p (ap cursor_domain_name e ∙ k))),
        λ k. ap cursor_domain_name (sym e) ∙ q (omega arith),
      )
]

-- `read_cursor` panics exactly on a domain name of which the port is cut off.
pub read_cursor-panic_iff : (r : List ℕ) → (read_cursor r ≡ panic) ↔ IsPortCut r
read_cursor-panic_iff [] = unfold read_cursor in ground arith
read_cursor-panic_iff (t ∷ []) = unfold read_cursor in ground arith
read_cursor-panic_iff (t ∷ n ∷ r) = rw read_cursor-tagged (
    unfold cursor_tagged in
    ground (arith, cursor_ip-ne-panic (n ∷ r), cursor_domain_name-panic_iff n r))

-- ===== src/Socks5/PasswdAuthRequest/RoundTrip.antt =====
-- User names and passwords on the wire and back.
use mobile_android_obfuscati.Common.{ℕ, ◌%◌, ◌≤◌, ◌<◌, ◌≡◌, arith, length, length-append}
use mobile_android_obfuscati.Common.{List, [], ◌∷◌, ◌++◌, ok}
use mobile_android_obfuscati.Common.Bytes.{read_exact_of}
use mobile_android_obfuscati.Socks5.Error.{Error, eof}
use mathlib.Core.List.{append_assoc}
use mobile_android_obfuscati.Socks5.PasswdAuthRequest.{
  PasswdAuthRequest, new, read_field, read_from, write_to_buf, serialized_len,
}

read_field-append :
    (bs rest : List ℕ)
    → 0 < length bs
    → length bs ≤ 255
    → read_field (length bs % 256 ∷ (bs ++ rest)) ≡ ok (bs, rest)
unfolding read_field
read_field-append bs rest lo hi =
    ground (arith, read_exact_of eof (length bs % 256) bs rest (omega arith))

new-eq_ok :
    (uname passwd : List ℕ) (h : PasswdAuthRequest)
    → new {E = Error} uname passwd ≡ ok h
    → (h.uname ≡ uname)
      × (h.passwd ≡ passwd)
      × (0 < length uname)
      × (length uname ≤ 255)
      × (0 < length passwd)
      × (length passwd ≤ 255)
unfolding new
new-eq_ok uname passwd h k = ground arith

read_from_fields :
    (h : PasswdAuthRequest) (rest : List ℕ)
    → 0 < length h.uname
    → length h.uname ≤ 255
    → 0 < length h.passwd
    → length h.passwd ≤ 255
    → read_from (write_to_buf h [] ++ rest) ≡ ok (h, rest)
unfolding read_from write_to_buf
read_from_fields h rest ulo uhi plo phi =
    let plen = length h.passwd % 256 in
    ground (
      arith,
      append_assoc h.uname (plen ∷ h.passwd) rest,
      read_exact_of eof (length h.uname % 256) h.uname (plen ∷ (h.passwd ++ rest)),
      read_field-append h.passwd rest,
    )

-- Every request that the constructor admits is written in `serialized_len` bytes, and read back from
-- them up to whatever follows.
pub passwd_auth_roundtrip :
    (uname passwd : List ℕ) (h : PasswdAuthRequest) (rest : List ℕ)
    → new {E = Error} uname passwd ≡ ok h
    → (read_from (write_to_buf h [] ++ rest) ≡ ok (h, rest))
      × (length (write_to_buf h []) ≡ serialized_len h)
unfolding write_to_buf serialized_len
passwd_auth_roundtrip uname passwd h rest k =
    let (eu, ep, ulo, uhi, plo, phi) = new-eq_ok uname passwd h k in
    (
      read_from_fields h rest (rw eu ulo) (rw eu uhi) (rw ep plo) (rw ep phi),
      omega (arith, length-append h.uname ((length h.passwd % 256) ∷ h.passwd)),
    )

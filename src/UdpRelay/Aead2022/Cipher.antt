-- ===== src/UdpRelay/Aead2022/Cipher.antt =====
-- The crate `shadowsocks_crypto` as the packets of AEAD 2022 use it, and `^=` on bytes.
use mobile_android_obfuscati.Common.{
  ℕ, zero, suc, ◌+◌, ◌*◌, ◌/◌, ◌%◌, ◌^◌, ◌<◌, ◌≡◌, refl, arith, Bool, true, List, [], ◌∷◌, length,
  take, All,
}
use mobile_android_obfuscati.Common.Bytes.{IsByte}
use mobile_android_obfuscati.Aead2022.Identity.{Method}
use native.Mathlib.Nat.{pow-suc}

-- `v2::udp::UdpCipher`: a cipher for a method, a key and a session. A packet is encrypted under a nonce,
-- with the tag behind it. `nonce_len` is the nonce of ChaCha20-Poly1305, which has the key itself as the
-- key of the cipher, whichever the session.
pub record UdpCipher : Type 1 where
  pub Cipher : Type 0
  pub nonce_len : ℕ
  pub tag_len : ℕ
  pub new : Method → List ℕ → ℕ → Cipher
  pub encrypt_packet : Cipher → List ℕ → List ℕ → List ℕ
  pub decrypt_packet : Cipher → List ℕ → List ℕ → Bool × List ℕ
  pub new-chacha20_poly1305 :
      (key : List ℕ) (session_id other : ℕ)
      → new Method.chacha20_poly1305 key session_id ≡ new Method.chacha20_poly1305 key other
  pub length-encrypt_packet :
      (c : Cipher) (nonce plain : List ℕ)
      → length (encrypt_packet c nonce plain) ≡ length plain + tag_len
  pub decrypt-encrypt_packet :
      (c : Cipher) (nonce plain : List ℕ)
      → let (valid, decrypted) = decrypt_packet c nonce (encrypt_packet c nonce plain) in
        (valid ≡ true) × (take (length plain) decrypted ≡ plain)

-- The exclusive or of the lowest `n` bits.
unfoldable pub xor_bits : ℕ → ℕ → ℕ → ℕ
xor_bits zero x y = 0
xor_bits (suc n) x y = (x + y) % 2 + 2 * xor_bits n (x / 2) (y / 2)

-- `for i in 0..16 { a[i] ^= b[i]; }`, on two blocks of bytes of one length.
unfoldable pub xor : List ℕ → List ℕ → List ℕ
xor [] ys = []
xor (x ∷ xs) [] = x ∷ xs
xor (x ∷ xs) (y ∷ ys) = xor_bits 8 x y ∷ xor xs ys

xor_bits_twice : (n x y : ℕ) → x < 2 ^ n → xor_bits n (xor_bits n x y) y ≡ x
unfolding xor_bits
xor_bits_twice zero x y h = omega arith
xor_bits_twice (suc n) x y h =
    let below = xor_bits n (x / 2) (y / 2) in
    let half : ((x + y) % 2 + 2 * below) / 2 ≡ below = omega arith in
    let ih = xor_bits_twice n (x / 2) (y / 2) (omega (arith, pow-suc 2 n)) in
    rw (half, ih) (omega arith)

-- What is masked twice with one block is itself.
pub xor_twice : (xs ys : List ℕ) → All IsByte xs → xor (xor xs ys) ys ≡ xs
unfolding xor
xor_twice [] ys h = refl
xor_twice (x ∷ xs) [] h = refl
xor_twice (x ∷ xs) (y ∷ ys) h = rw (xor_bits_twice 8 x y h.0, xor_twice xs ys h.1)

pub length-xor : (xs ys : List ℕ) → length (xor xs ys) ≡ length xs
unfolding xor
length-xor [] ys = refl
length-xor (x ∷ xs) [] = refl
length-xor (x ∷ xs) (y ∷ ys) = rw (length-xor xs ys)

-- ===== src/Aead/Cipher.antt =====
-- The ciphers of the crate `shadowsocks_crypto` and the check of nonces, as parameters.
use mobile_android_obfuscati.Common.{
  ℕ, ◌+◌, ◌<◌, ◌≡◌, Bool, true, List, length, take, Result, IoErrorKind,
}

-- An AEAD method: `CipherKind::salt_len`, `CipherKind::tag_len`, and the `Cipher` of a key and a salt,
-- of which each packet changes the nonce. Encryption appends the tag; decryption works in place and
-- leaves the tag's bytes behind the plain text. What is encrypted is decrypted by a cipher in the same
-- state, and both ciphers go on in the same state.
pub record Aead : Type 1 where
  pub Cipher : Type 0
  pub salt_len : ℕ
  pub tag_len : ℕ
  pub new : List ℕ → List ℕ → Cipher
  pub encrypt_packet : Cipher → List ℕ → List ℕ × Cipher
  pub decrypt_packet : Cipher → List ℕ → Bool × List ℕ × Cipher
  pub tag_len-pos : 0 < tag_len
  pub length-encrypt_packet :
      (c : Cipher) (p : List ℕ) → length (encrypt_packet c p).0 ≡ length p + tag_len
  pub length-decrypt_packet : (c : Cipher) (m : List ℕ) → length (decrypt_packet c m).1 ≡ length m
  pub decrypt-encrypt :
      (c : Cipher) (p : List ℕ)
      → ((decrypt_packet c (encrypt_packet c p).0).0 ≡ true)
        × (take (length p) (decrypt_packet c (encrypt_packet c p).0).1 ≡ p)
        × ((decrypt_packet c (encrypt_packet c p).0).2 ≡ (encrypt_packet c p).1)

-- `Context::check_nonce_replay` for one method.
pub record NonceCheck : Type 1 where
  pub Context : Type 0
  pub check_nonce_replay : Context → List ℕ → Result IoErrorKind (Unit {0}) × Context

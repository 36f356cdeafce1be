-- ===== src/StreamCipher.antt =====
-- crates/shadowsocks/src/relay/tcprelay/stream.rs: streams under a stream cipher, over the same
-- transport as the AEAD streams.
pub mod Reader
pub mod Writer
pub mod EndToEnd
use mobile_android_obfuscati.Common.{ℕ, ◌≡◌, Bool, true, List, [], ◌++◌, length, IoErrorKind}

-- A stream cipher: `CipherKind::iv_len`, and the `Cipher` of a key and an initialisation vector. Bytes
-- are encrypted in place, one after the other: how they are divided into packets does not matter.
pub record StreamCipher : Type 1 where
  pub Cipher : Type 0
  pub iv_len : ℕ
  pub new : List ℕ → List ℕ → Cipher
  pub encrypt_packet : Cipher → List ℕ → List ℕ × Cipher
  pub decrypt_packet : Cipher → List ℕ → Bool × List ℕ × Cipher
  pub length-encrypt_packet : (c : Cipher) (p : List ℕ) → length (encrypt_packet c p).0 ≡ length p
  pub encrypt_packet-nil : (c : Cipher) → encrypt_packet c [] ≡ ([], c)
  pub encrypt_packet-append :
      (c : Cipher) (p q : List ℕ)
      → encrypt_packet c (p ++ q) ≡ (
        (encrypt_packet c p).0 ++ (encrypt_packet (encrypt_packet c p).1 q).0,
        (encrypt_packet (encrypt_packet c p).1 q).1,
      )
  pub decrypt-encrypt :
      (c : Cipher) (p : List ℕ)
      → decrypt_packet c (encrypt_packet c p).0 ≡ (true, p, (encrypt_packet c p).1)

pub data ProtocolError : Type 0 where
  io_error : IoErrorKind → ProtocolError
  decrypt_error : ProtocolError

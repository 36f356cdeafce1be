-- ===== src/UdpRelay/Aead2022/Message.antt =====
-- The ids and the identity headers of a packet, and what the two ends make of them.
pub mod Keys
pub mod Plain
pub mod Aes
pub mod Opens
use mathlib.Core.List.{append_assoc, append-nil}
use mobile_android_obfuscati.Common.{
  ℕ, zero, suc, ◌+◌, ◌-◌, ◌*◌, ◌^◌, ◌≤◌, ◌<◌, ◌≡◌, refl, sym, ap, ◌∙◌, arith, ltb, le→ltb, not,
  ◌&&◌, Bool, true, false, List, [], ◌∷◌, ◌++◌, length, take, drop, length-append, length-take,
  take-append-drop, drop-drop, if◌then◌else◌, Option, none, some, take-length_append,
  drop-length_append, All,
}
use mobile_android_obfuscati.Common.{Result, ok, err, panic, ◌>>=◌}
use mobile_android_obfuscati.Common.Bytes.{
  IsByte, put_uint, length-put_uint, put_uint-append, get_uint, get_uint-put_uint,
}
use mobile_android_obfuscati.Aead2022.Identity.{
  Method, method_support_eih, Primitives, ServerUser, ServerUserManager, get_user_by_hash,
}
use mobile_android_obfuscati.UdpRelay.Aead2022.{
  ProtocolError, require_eih, is_some, aes_block, get_nonce_len, encrypt_aes, encrypt_message,
  open_packet, chosen_user, identify_user, decrypt_aes, decrypt_message,
}
use mobile_android_obfuscati.UdpRelay.Aead2022.Client.{next_key, make_eih, packet_identities}
use mobile_android_obfuscati.UdpRelay.Aead2022.Cipher.{UdpCipher, xor, xor_twice, length-xor}

-- The two ids in front of a packet.
abbrev pub ids : ℕ → ℕ → List ℕ
ids session_id packet_id = put_uint 8 session_id (put_uint 8 packet_id [])

pub length-ids : (s p : ℕ) → length (ids s p) ≡ 16
length-ids s p = omega (arith, length-put_uint 8 s (put_uint 8 p []), length-put_uint 8 p [])

pub ids-append : (s p : ℕ) (r : List ℕ) → ids s p ++ r ≡ put_uint 8 s (put_uint 8 p r)
ids-append s p r =
    put_uint-append 8 s (put_uint 8 p []) r ∙ ap (put_uint 8 s) (put_uint-append 8 p [] r)

-- The length of a key that AES takes; the other method takes any.
abbrev pub KeyFits : Method → List ℕ → Type 0
KeyFits Method.aes_128_gcm key = length key ≡ 16
KeyFits Method.aes_256_gcm key = length key ≡ 32
KeyFits Method.chacha20_poly1305 key = Unit

pub aes_block-KeyFits :
    (crypt : Method → List ℕ → List ℕ → List ℕ) (method : Method) (key block : List ℕ)
    → method_support_eih method ≡ true
    → KeyFits method key
    → aes_block crypt method key block ≡ ok (crypt method key block)
unfolding aes_block
aes_block-KeyFits crypt Method.aes_128_gcm key block aes fits = ground arith
aes_block-KeyFits crypt Method.aes_256_gcm key block aes fits = ground arith
aes_block-KeyFits crypt Method.chacha20_poly1305 key block aes fits = cc

module _ (u : UdpCipher) (b : Primitives) where
  -- The identity headers of a client.
  abbrev pub eihs_of : Method → List ℕ → List ℕ → List (List ℕ) → Result ProtocolError (List ℕ)
  eihs_of method key sp identity_keys =
      if method_support_eih method && ltb 0 (length identity_keys)
      then packet_identities u b method key sp identity_keys
      else ok []

  -- What the two ends make of the identity of a packet with the ids `sp`: the header as it is sent, and as
  -- it is behind the decryption.
  pub record Identities (method : Method) (key : List ℕ) (identity_keys : List (List ℕ))
      (reader_key : List ℕ) (users : Option ServerUserManager) (user : Option ServerUser)
      (sp : List ℕ) : Type 0 where
    pub eih : List ℕ
    pub hash : List ℕ
    pub eih_is : eihs_of method key sp identity_keys ≡ ok eih
    pub eih_size_is :
        (if method_support_eih method && ltb 0 (length identity_keys)
          then length identity_keys * 16
          else 0)
        ≡ length eih
    pub length_is : length eih ≡ (if require_eih method users then 16 else 0)
    pub hash_is : length hash ≡ length eih
    pub ipsk_is : next_key u b key identity_keys ≡ reader_key
    pub key_fits : KeyFits method reader_key
    pub identifies :
        (m : List ℕ)
        → method_support_eih method ≡ true
        → identify_user u b method reader_key sp (eih ++ m) users ≡ ok (user, key, hash, m)
    pub prepends :
        method_support_eih method ≡ false → (eih ≡ []) × (user ≡ none) × (reader_key ≡ key)

-- ===== src/Aead2022/Handshake/Agrees/Keys.antt =====
-- The keys of the two ends of a stream, and the identity headers that they agree on.
use mobile_android_obfuscati.Common.{
  ℕ, ◌≡◌, refl, arith, true, false, List, [], ◌∷◌, ◌++◌, length, take, length-take, if◌then◌else◌,
  Option, none, some,
}
use mobile_android_obfuscati.Aead.Cipher.{Aead}
use mobile_android_obfuscati.Aead2022.Identity.{
  Method, method_support_eih, Primitives, ServerUser, ServerUserManager, get_user_by_hash,
}
use mobile_android_obfuscati.Aead2022.Header.{StreamType, make_header}
use mobile_android_obfuscati.Aead2022.Header.RoundTrip.{peer}
use mobile_android_obfuscati.Aead2022.Handshake.{require_eih, identity_key_len}
use mobile_android_obfuscati.Aead2022.Writer.{make_eih, identity_headers, sends_identities}

module _ (b : Primitives) where
  -- The identity headers of a writer.
  abbrev pub identities : StreamType → Method → List ℕ → List ℕ → List (List ℕ) → List ℕ
  identities ty method key nonce identity_keys =
      if sends_identities b ty method
      then identity_headers b method key nonce none identity_keys
      else []

  -- A writer of the type `ty` with the key `key` and identity keys, and a reader at the other end with the
  -- key `reader_key` and users: either both have one key and no identity headers are asked for, or the
  -- reader is a server that knows the user of the key, and its own key is the one identity key.
  pub data KeysAgree (ty : StreamType) (method : Method) (key : List ℕ)
      : List (List ℕ) → List ℕ → Option ServerUserManager → Type 0 where
    shared :
        (users : Option ServerUserManager)
        → require_eih (peer ty) method users ≡ false
        → KeysAgree ty method key [] key users
    identified :
        (reader_key : List ℕ) (users : ServerUserManager) (user : ServerUser)
        → ty ≡ StreamType.client
        → method_support_eih method ≡ true
        → get_user_by_hash (take 16 (b.hash key)) users ≡ some user
        → user.key ≡ key
        → KeysAgree ty method key (reader_key ∷ []) reader_key (some users)

module _ (b : Primitives) where
  pub identity_block :
      (method : Method) (key reader_key nonce : List ℕ)
      → method_support_eih method ≡ true
      → identities b StreamType.client method key nonce (reader_key ∷ [])
        ≡ make_eih b method (b.derive_key (reader_key ++ nonce)) key
  unfolding identity_headers
  identity_block method key reader_key nonce supports = rw supports refl

  pub length-make_eih :
      (method : Method) (sub_key key : List ℕ) → length (make_eih b method sub_key key) ≡ 16
  unfolding make_eih
  length-make_eih method sub_key key =
      b.length-encrypt_block method (take (identity_key_len method) sub_key) (take 16 (b.hash key))
        (omega (arith, length-take 16 (b.hash key), b.length-hash key))

  no_identities :
      (ty : StreamType) (method : Method) (key nonce : List ℕ)
      → identities b ty method key nonce [] ≡ []
  unfolding identity_headers
  no_identities ty method key nonce = ground arith

  -- The identity headers are as long as the reader takes them to be.
  pub length-identities :
      {ty : StreamType} {method : Method} {key : List ℕ} {ids : List (List ℕ)} {reader_key : List ℕ}
      {users : Option ServerUserManager} (nonce : List ℕ)
      → KeysAgree b ty method key ids reader_key users
      → length (identities b ty method key nonce ids)
        ≡ (if require_eih (peer ty) method users then 16 else 0)
  length-identities {ty} {method} {key} nonce (KeysAgree.shared users plain) =
      rw (plain, no_identities ty method key nonce)
  length-identities {ty} {method} {key} nonce
        (KeysAgree.identified reader_key users user is supports found has) =
      rw (is, identity_block method key reader_key nonce supports, supports)
        (length-make_eih method (b.derive_key (reader_key ++ nonce)) key)

module _ (e : Aead) (b : Primitives) where
  -- The header on the wire, and the cipher after it.
  abbrev pub header_bytes :
      StreamType
      → Method
      → List ℕ
      → List (List ℕ)
      → List ℕ
      → ℕ
      → Option (List ℕ)
      → ℕ
      → List ℕ × e.Cipher
  header_bytes ty method key ids nonce time request_salt n =
      let (part, next) = e.encrypt_packet (e.new key nonce) (make_header ty time request_salt n) in
      ((nonce ++ identities b ty method key nonce ids) ++ part, next)

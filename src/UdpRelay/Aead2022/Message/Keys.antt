-- ===== src/UdpRelay/Aead2022/Message/Keys.antt =====
-- The keys of the two ends of a packet.
use mathlib.Core.List.{append-nil}
use mobile_android_obfuscati.Common.{
  ℕ, ◌≡◌, refl, sym, ap, ◌∙◌, arith, ◌&&◌, true, false, List, [], ◌∷◌, ◌++◌, length, take, drop,
  length-take, if◌then◌else◌, Option, none, some, take-length_append, drop-length_append, All,
}
use mobile_android_obfuscati.Common.{ok}
use mobile_android_obfuscati.Common.Bytes.{IsByte}
use mobile_android_obfuscati.Aead2022.Identity.{
  Method, method_support_eih, Primitives, ServerUser, ServerUserManager, get_user_by_hash,
}
use mobile_android_obfuscati.UdpRelay.Aead2022.{require_eih, identify_user}
use mobile_android_obfuscati.UdpRelay.Aead2022.Client.{make_eih, packet_identities}
use mobile_android_obfuscati.UdpRelay.Aead2022.Cipher.{UdpCipher, xor, xor_twice, length-xor}
use mobile_android_obfuscati.UdpRelay.Aead2022.Message.{
  ids, KeyFits, aes_block-KeyFits, eihs_of, Identities,
}

-- A sender with the key `key` and identity keys, and a receiver with the key `reader_key` and users that
-- takes the packet for one of `user`: either both have one key and no identity header is asked for, or
-- the receiver is a server that knows the user of the key, and its own key is the one identity key.
pub data PacketKeys (b : Primitives) (method : Method) (key : List ℕ)
    : List (List ℕ) → List ℕ → Option ServerUserManager → Option ServerUser → Type 0 where
  shared :
      (users : Option ServerUserManager)
      → require_eih method users ≡ false
      → KeyFits method key
      → PacketKeys b method key [] key users none
  identified :
      (reader_key : List ℕ) (users : ServerUserManager) (user : ServerUser)
      → method_support_eih method ≡ true
      → KeyFits method reader_key
      → All IsByte (take 16 (b.hash key))
      → get_user_by_hash (take 16 (b.hash key)) users ≡ some user
      → user.key ≡ key
      → PacketKeys b method key (reader_key ∷ []) reader_key (some users) (some user)

module _ (u : UdpCipher) (b : Primitives) where
  pub shared_identifies :
      (method : Method) (key sp m : List ℕ) (users : Option ServerUserManager)
      → require_eih method users ≡ false
      → identify_user u b method key sp m users ≡ ok (none, key, [], m)
  unfolding identify_user
  shared_identifies method key sp m none plain = refl
  shared_identifies Method.chacha20_poly1305 key sp m (some users) plain = refl
  shared_identifies Method.aes_128_gcm key sp m (some users) plain = cc
  shared_identifies Method.aes_256_gcm key sp m (some users) plain = cc

  pub no_eihs :
      (method : Method) (key sp : List ℕ)
      → (eihs_of u b method key sp [] ≡ ok [])
        × (◌≡◌ {A = ℕ} (if method_support_eih method && false then 0 else 0) 0)
  no_eihs Method.aes_128_gcm key sp = (refl, refl)
  no_eihs Method.aes_256_gcm key sp = (refl, refl)
  no_eihs Method.chacha20_poly1305 key sp = (refl, refl)

  one_eih :
      (method : Method) (key reader_key sp : List ℕ)
      → method_support_eih method ≡ true
      → KeyFits method reader_key
      → eihs_of u b method key sp (reader_key ∷ [])
        ≡ ok (b.encrypt_block method reader_key (xor (take 16 (b.hash key)) sp))
  unfolding packet_identities make_eih
  one_eih method key reader_key sp aes fits =
      let block = xor (take 16 (b.hash key)) sp in
      rw (
        aes,
        aes_block-KeyFits b.encrypt_block method reader_key block aes fits,
        append-nil (b.encrypt_block method reader_key block),
      )

  identified_by :
      (method : Method) (key reader_key sp m : List ℕ) (users : ServerUserManager)
      (user : ServerUser)
      → length (xor (take 16 (b.hash key)) sp) ≡ 16
      → method_support_eih method ≡ true
      → KeyFits method reader_key
      → All IsByte (take 16 (b.hash key))
      → get_user_by_hash (take 16 (b.hash key)) users ≡ some user
      → user.key ≡ key
      → identify_user u b method reader_key sp
          (b.encrypt_block method reader_key (xor (take 16 (b.hash key)) sp) ++ m)
          (some users)
        ≡ ok (some user, key, take 16 (b.hash key), m)
  unfolding identify_user
  identified_by method key reader_key sp m users user size aes fits bytes found has =
      let block = xor (take 16 (b.hash key)) sp in
      let eih = b.encrypt_block method reader_key block in
      let whole : length eih ≡ 16 = b.length-encrypt_block method reader_key block size in
      let front : take 16 (eih ++ m) ≡ eih =
        ap (λ n. take n (eih ++ m)) (sym whole) ∙ take-length_append eih m in
      let back : drop 16 (eih ++ m) ≡ m =
        ap (λ n. drop n (eih ++ m)) (sym whole) ∙ drop-length_append eih m in
      rw (
        aes,
        front,
        aes_block-KeyFits b.decrypt_block method reader_key eih aes fits,
        b.decrypt-encrypt_block method reader_key block size,
        xor_twice (take 16 (b.hash key)) sp bytes,
        found,
        back,
        has,
      )

  abbrev pub no_identity :
      (method : Method) (key : List ℕ) (s p : ℕ) (users : Option ServerUserManager)
      → require_eih method users ≡ false
      → KeyFits method key
      → Identities u b method key [] key users none (ids s p)
  no_identity method key s p users plain fits = record {
    eih = [];
    hash = [];
    eih_is = (no_eihs method key (ids s p)).0;
    eih_size_is = (no_eihs method key (ids s p)).1;
    length_is = rw plain refl;
    hash_is = refl;
    ipsk_is = refl;
    key_fits = fits;
    identifies = λ m aes. shared_identifies method key (ids s p) m users plain;
    prepends = λ no. (refl, refl, refl);
  }

  -- The two ends agree on the identity of a packet.
  pub identities-PacketKeys :
      {method : Method} {key : List ℕ} {identity_keys : List (List ℕ)} {reader_key : List ℕ}
      {users : Option ServerUserManager} {user : Option ServerUser} (s p : ℕ)
      → PacketKeys b method key identity_keys reader_key users user
      → Identities u b method key identity_keys reader_key users user (ids s p)
  identities-PacketKeys {method} {key} s p (PacketKeys.shared users plain fits) =
      no_identity method key s p users plain fits
  identities-PacketKeys {method} {key} s p
        (PacketKeys.identified reader_key users user aes fits bytes found has) =
      let block = xor (take 16 (b.hash key)) (ids s p) in
      let eih = b.encrypt_block method reader_key block in
      let size : length block ≡ 16 = omega (
        arith,
        length-xor (take 16 (b.hash key)) (ids s p),
        length-take 16 (b.hash key),
        b.length-hash key,
      ) in
      let whole : length eih ≡ 16 = b.length-encrypt_block method reader_key block size in
      record {
        eih = eih;
        hash = take 16 (b.hash key);
        eih_is = one_eih method key reader_key (ids s p) aes fits;
        eih_size_is = rw aes (sym whole);
        length_is = rw aes whole;
        hash_is = omega (arith, length-take 16 (b.hash key), b.length-hash key);
        ipsk_is = refl;
        key_fits = fits;
        identifies = λ m _.
            identified_by method key reader_key (ids s p) m users user size aes fits bytes found
              has;
        prepends = λ no. absurd (let e : false ≡ true = sym no ∙ aes in cc);
      }

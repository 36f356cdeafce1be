-- ===== src/Aead2022/Identity.antt =====
-- The users of a server, `ServerUser` and `ServerUserManager` of crates/shadowsocks/src/config.rs, and the
-- hash functions and block ciphers that identity headers are made of.
use mobile_android_obfuscati.Common.{
  ℕ, ◌≡◌, Bool, true, false, List, [], ◌∷◌, length, take, if◌then◌else◌, Option, none, some,
}
use mobile_android_obfuscati.Common.Strings.{str_eq, str_eq_refl}

-- The methods of AEAD 2022 among `CipherKind` of the crate `shadowsocks_crypto`, but for those behind the
-- feature `aead-cipher-2022-extra`.
pub data Method : Type 0 where
  aes_128_gcm aes_256_gcm chacha20_poly1305 : Method

abbrev pub method_support_eih : Method → Bool
method_support_eih Method.aes_128_gcm = true
method_support_eih Method.aes_256_gcm = true
method_support_eih Method.chacha20_poly1305 = false

-- The crates `blake3` and `aes`: hashes of 32 bytes, and one block of 16 bytes under AES with a key of
-- the size of the method. `derive_key` has the context of identity keys.
pub record Primitives : Type 0 where
  pub hash : List ℕ → List ℕ
  pub derive_key : List ℕ → List ℕ
  pub encrypt_block : Method → List ℕ → List ℕ → List ℕ
  pub decrypt_block : Method → List ℕ → List ℕ → List ℕ
  pub length-hash : (key : List ℕ) → length (hash key) ≡ 32
  pub length-encrypt_block :
      (m : Method) (key block : List ℕ)
      → length block ≡ 16
      → length (encrypt_block m key block) ≡ 16
  pub decrypt-encrypt_block :
      (m : Method) (key block : List ℕ)
      → length block ≡ 16
      → decrypt_block m key (encrypt_block m key block) ≡ block

pub record ServerUser : Type 0 where
  pub name : List ℕ
  pub key : List ℕ
  pub identity_hash : List ℕ

pub record ServerUserManager : Type 0 where
  pub users : List (List ℕ × ServerUser)

-- The first entry of a key counts, so that an insertion in front replaces.
abbrev lookup : List ℕ → List (List ℕ × ServerUser) → Option ServerUser
lookup user_hash [] = none
lookup user_hash ((key, user) ∷ users) =
    if str_eq key user_hash then some user else lookup user_hash users

abbrev pub new : ServerUserManager
new = record { users = [] }

unfoldable pub add_user : ServerUser → ServerUserManager → ServerUserManager
add_user user m = record { users = (user.identity_hash, user) ∷ m.users }

unfoldable pub get_user_by_hash : List ℕ → ServerUserManager → Option ServerUser
get_user_by_hash user_hash m = lookup user_hash m.users

module _ (b : Primitives) where
  -- `ServerUser::new`
  unfoldable pub new_user : List ℕ → List ℕ → ServerUser
  new_user name key = record { name = name; key = key; identity_hash = take 16 (b.hash key) }

  pub get_user_by_hash-add_user :
      (name key : List ℕ) (m : ServerUserManager)
      → get_user_by_hash (take 16 (b.hash key)) (add_user (new_user name key) m)
        ≡ some (new_user name key)
  unfolding get_user_by_hash add_user new_user
  get_user_by_hash-add_user name key m = rw (str_eq_refl (take 16 (b.hash key)))

-- ===== src/Context.antt =====
-- `struct Context` of crates/shadowsocks/src/context.rs, as far as nonces go: without the resolver and
-- the preference of IPv6. A time in seconds stands for the clock, and a list of draws for the random
-- numbers.
pub mod Nonces
pub mod Once
pub mod Replays
use mobile_android_obfuscati.Common.{
  ℕ, ◌≡◌, Bool, true, false, ◌&&◌, List, [], ◌∷◌, if◌then◌else◌, Option, none, some,
}
use mobile_android_obfuscati.Common.{Result, ok, err, IoErrorKind}
use mobile_android_obfuscati.Replay.PingPongBloom.{Bloom, ServerType}
use mobile_android_obfuscati.Replay.ReplayProtector
use mobile_android_obfuscati.Replay.ReplayProtector.{LruCache, CipherKind, is_aead_2022}
use mobile_android_obfuscati.Aead.Cipher.{NonceCheck}

-- crates/shadowsocks/src/config.rs
pub data ReplayAttackPolicy : Type 0 where
  default ignore detect reject : ReplayAttackPolicy

module _ (e : Bloom) (l : LruCache) where
  pub record Context : Type 0 where
    pub replay_protector : ReplayProtector.ReplayProtector e l
    pub replay_policy : ReplayAttackPolicy

module _ {e : Bloom} {l : LruCache} where
  abbrev pub new : ServerType → Context e l
  new config_type = record {
    replay_protector = ReplayProtector.new config_type;
    replay_policy = ReplayAttackPolicy.default;
  }

  abbrev pub with_protector :
      {A : Type 0} → Context e l → A × ReplayProtector.ReplayProtector e l → A × Context e l
  with_protector x (a, p) = (a, record x { replay_protector = p })

  abbrev pub protector_check : Context e l → ℕ → CipherKind → List ℕ → Bool × Context e l
  protector_check x now method nonce =
      with_protector x (ReplayProtector.check_nonce_and_set x.replay_protector now method nonce)

  abbrev checked_by :
      ReplayAttackPolicy → Context e l → ℕ → CipherKind → List ℕ → Bool × Context e l
  checked_by ReplayAttackPolicy.default x now method nonce = protector_check x now method nonce
  checked_by ReplayAttackPolicy.ignore x now method nonce = (false, x)
  checked_by ReplayAttackPolicy.detect x now method nonce = protector_check x now method nonce
  checked_by ReplayAttackPolicy.reject x now method nonce = protector_check x now method nonce

  unfoldable pub check_nonce_and_set : Context e l → ℕ → CipherKind → List ℕ → Bool × Context e l
  check_nonce_and_set x now method nonce = checked_by x.replay_policy x now method nonce

  -- The loop: draw until the nonce is new, where it has to be. It ends with `none` where the draws do.
  unfoldable pub draw_nonce :
      Context e l → ℕ → CipherKind → Bool → List (List ℕ) → Option (List ℕ × Context e l)
  draw_nonce x now method unique [] = none
  draw_nonce x now method unique (nonce ∷ draws) =
      let (found, y) = check_nonce_and_set x now method nonce in
      let again = draw_nonce y now method unique draws in
      if unique then (if found then again else some (nonce, y)) else some (nonce, x)

  unfoldable pub generate_nonce :
      Context e l → ℕ → CipherKind → List ℕ → Bool → List (List ℕ) → Option (List ℕ × Context e l)
  generate_nonce x now method [] unique draws = some ([], x)
  generate_nonce x now method (b ∷ nonce) unique draws = draw_nonce x now method unique draws

  abbrev effective_policy : Context e l → CipherKind → ReplayAttackPolicy
  effective_policy x method =
      if is_aead_2022 method then ReplayAttackPolicy.reject else x.replay_policy

  abbrev replay_by :
      ReplayAttackPolicy
      → Context e l
      → ℕ
      → CipherKind
      → List ℕ
      → Result IoErrorKind (Unit {0}) × Context e l
  replay_by ReplayAttackPolicy.default x now method nonce = (ok tt, x)
  replay_by ReplayAttackPolicy.ignore x now method nonce = (ok tt, x)
  replay_by ReplayAttackPolicy.detect x now method nonce =
      (ok tt, (protector_check x now method nonce).1)
  replay_by ReplayAttackPolicy.reject x now method nonce =
      let (found, y) = protector_check x now method nonce in
      (if found then err IoErrorKind.other_kind else ok tt, y)

  unfoldable pub check_nonce_replay :
      Context e l → ℕ → CipherKind → List ℕ → Result IoErrorKind (Unit {0}) × Context e l
  check_nonce_replay x now method [] = (ok tt, x)
  check_nonce_replay x now method (b ∷ nonce) =
      replay_by (effective_policy x method) x now method (b ∷ nonce)

-- What a reader of streams takes of the context.
abbrev pub nonce_check : Bloom → LruCache → ℕ → CipherKind → NonceCheck
nonce_check e l now method = record {
  Context = Context e l;
  check_nonce_replay = λ x nonce. check_nonce_replay x now method nonce;
}

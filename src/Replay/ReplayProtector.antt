-- ===== src/Replay/ReplayProtector.antt =====
-- `struct ReplayProtector` of crates/shadowsocks/src/security/replay/mod.rs, with the features
-- `security-replay-attack-detect` and `aead-cipher-2022`. The locks are left out: each call runs alone.
pub mod Repeated
pub mod Knows
use mobile_android_obfuscati.Common.{
  ℕ, ◌+◌, ◌*◌, ◌<◌, ◌≤◌, ◌≡◌, ◌≢◌, Bool, true, false, List, [], ◌∷◌, if◌then◌else◌,
}
use mobile_android_obfuscati.Replay.PingPongBloom
use mobile_android_obfuscati.Replay.PingPongBloom.{Bloom, PingPongBloom, ServerType}

-- `LruCache<Vec<u8>, ()>` of the crate `lru_time_cache` at a time in seconds: what is inserted is there
-- until the expiry duration is over. A `get` may drop entries and renews the one that it finds. What is
-- there at a later time stays there when other keys are looked up or inserted before.
pub record LruCache : Type 1 where
  pub Cache : Type 0
  pub with_expiry_duration : ℕ → Cache
  pub expiry : Cache → ℕ
  pub get : Cache → ℕ → List ℕ → Bool × Cache
  pub insert : Cache → ℕ → List ℕ → Cache
  pub get-insert :
      (c : Cache) (now later : ℕ) (nonce : List ℕ)
      → later < now + expiry c
      → (get (insert c now nonce) later nonce).0 ≡ true
  pub get-renewed :
      (c : Cache) (now later : ℕ) (nonce : List ℕ)
      → (get c now nonce).0 ≡ true
      → later < now + expiry c
      → (get (get c now nonce).1 later nonce).0 ≡ true
  pub get-kept :
      (c : Cache) (now later : ℕ) (nonce other : List ℕ)
      → now ≤ later
      → other ≢ nonce
      → (get c later nonce).0 ≡ true
      → (get (get c now other).1 later nonce).0 ≡ true
  pub insert-kept :
      (c : Cache) (now later : ℕ) (nonce other : List ℕ)
      → now ≤ later
      → other ≢ nonce
      → (get c later nonce).0 ≡ true
      → (get (insert c now other) later nonce).0 ≡ true
  pub expiry-get : (c : Cache) (now : ℕ) (nonce : List ℕ) → expiry (get c now nonce).1 ≡ expiry c

-- `CipherKind` of the crate `shadowsocks_crypto`: of a method only the family counts here.
pub data CipherKind : Type 0 where
  stream aead aead_2022 : CipherKind

abbrev pub is_aead_2022 : CipherKind → Bool
is_aead_2022 CipherKind.stream = false
is_aead_2022 CipherKind.aead = false
is_aead_2022 CipherKind.aead_2022 = true

-- `SERVER_STREAM_TIMESTAMP_MAX_DIFF` of crates/shadowsocks/src/relay/tcprelay/proxy_stream/protocol/v2.rs.
abbrev pub server_stream_timestamp_max_diff : ℕ
server_stream_timestamp_max_diff = 30

module _ (e : Bloom) (l : LruCache) where
  pub record ReplayProtector : Type 0 where
    pub nonce_ppbloom : PingPongBloom e
    pub nonce_set : l.Cache

module _ {e : Bloom} {l : LruCache} where
  unfoldable pub new : ServerType → ReplayProtector e l
  new config_type = record {
    nonce_ppbloom = PingPongBloom.new config_type;
    nonce_set = l.with_expiry_duration (server_stream_timestamp_max_diff * 2);
  }

  -- Whether the nonce is a repetition, and the protector afterwards.
  unfoldable pub check_nonce_and_set :
      ReplayProtector e l → ℕ → CipherKind → List ℕ → Bool × ReplayProtector e l
  check_nonce_and_set p now method [] = (false, p)
  check_nonce_and_set p now method (b ∷ nonce) =
      if is_aead_2022 method
      then (let (found, set) = l.get p.nonce_set now (b ∷ nonce) in
          if found
          then (true, record p { nonce_set = set })
          else (false, record p { nonce_set = l.insert set now (b ∷ nonce) }))
      else (let (found, ppbloom) = PingPongBloom.check_and_set p.nonce_ppbloom (b ∷ nonce) in
          (found, record p { nonce_ppbloom = ppbloom }))

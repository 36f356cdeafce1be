-- ===== src/Aead2022/Replays.antt =====
-- Headers of AEAD 2022 that come again, where the nonces are checked by the context.
use mobile_android_obfuscati.Common.{
  ℕ, ◌+◌, ◌≤◌, ◌<◌, ◌≡◌, ◌≢◌, inl, inr, refl, sym, ap, ◌∙◌, arith, ltb, Bool-cases, List, [], ◌∷◌,
  ◌++◌, length, length-take, take, drop, Option, none, some, if◌then◌else◌,
}
use mobile_android_obfuscati.Common.{Result, ok, err, panic, IoErrorKind}
use mobile_android_obfuscati.Aead.Async.{Poll}
use mobile_android_obfuscati.Aead.Cipher.{Aead, NonceCheck}
use mobile_android_obfuscati.Replay.PingPongBloom.{Bloom}
use mobile_android_obfuscati.Replay.PingPongBloom.Remembered.{IsWellFormed}
use mobile_android_obfuscati.Replay.ReplayProtector.{LruCache, CipherKind}
use mobile_android_obfuscati.Context.{Context, nonce_check, check_nonce_replay}
use mobile_android_obfuscati.Context.Nonces.{check_nonce_replay_twice}
use mobile_android_obfuscati.Aead2022.Identity.{
  Primitives, ServerUser, ServerUserManager, get_user_by_hash,
}
use mobile_android_obfuscati.Aead2022.Header.{StreamType, ProtocolError, parse_header}
use mobile_android_obfuscati.Aead2022.Connection.{DecryptedReader, Connection}
use mobile_android_obfuscati.Aead2022.Handshake.{
  require_eih, identity_key_len, identify, found_user, get_user, read_whole_header,
}
use mobile_android_obfuscati.Aead2022.Handshake.Accepted.{plain_header, read_whole_header-Accepted}
use mobile_android_obfuscati.Aead2022.Handshake.Rejects.{parse_header-Timely}

-- The key that a header is under, as far as the reader alone knows.
abbrev key_of_user : List ℕ → Option ServerUser → Result ProtocolError (List ℕ)
key_of_user user_hash none = err (ProtocolError.invalid_client_user user_hash)
key_of_user user_hash (some user) = ok user.key

abbrev key_among : List ℕ → Option ServerUserManager → Result ProtocolError (List ℕ)
key_among user_hash none = panic
key_among user_hash (some users) = key_of_user user_hash (get_user_by_hash user_hash users)

abbrev key_of_header :
    {e : Aead}
    → Primitives
    → List ℕ
    → List ℕ
    → List ℕ
    → DecryptedReader e
    → Result ProtocolError (List ℕ)
key_of_header b key salt chunk r =
    if require_eih r.stream_ty r.method r.user_manager
    then (if ltb (length chunk) 16
        then err ProtocolError.missing_extended_identity_header
        else key_among
            (b.decrypt_block r.method
              (take (identity_key_len r.method) (b.derive_key (key ++ salt))) (take 16 chunk))
            r.user_manager)
    else ok key

module _ {e : Aead} (c : NonceCheck) (b : Primitives) (now : ℕ) where
  get_user_lem :
      (user_hash : List ℕ) (users : Option ServerUserManager) (x : Connection e c)
      → (get_user e c b now user_hash users x).0 ≡ Poll.ready (key_among user_hash users)
  get_user_lem user_hash none x = refl
  get_user_lem user_hash (some users) x = found (get_user_by_hash user_hash users)
    where
      found :
          (user : Option ServerUser)
          → (found_user e c b now user_hash user x).0 ≡ Poll.ready (key_of_user user_hash user)
      found none = refl
      found (some user) = refl

  identify_lem :
      (key salt chunk : List ℕ) (x : Connection e c)
      → (identify e c b now key salt chunk x).0
        ≡ Poll.ready (key_of_header b key salt chunk x.reader)
  unfolding identify
  identify_lem key salt chunk x =
      elim (Bool-cases (require_eih x.reader.stream_ty x.reader.method x.reader.user_manager)) [
        | inr plain ↦ rw plain refl
        | inl eih ↦ elim (Bool-cases (ltb (length chunk) 16)) [
          | inl short ↦ rw (eih, short) refl
          | inr enough ↦ rw (eih, enough) (get_user_lem _ x.reader.user_manager x)
        ]
      ]

-- A header has one time.
one_time :
    (header : List ℕ) (now later : ℕ) (fields fields' : Option (List ℕ) × ℕ)
    → parse_header StreamType.server 0 now header ≡ ok fields
    → parse_header StreamType.server 0 later header ≡ ok fields'
    → later ≤ now + 60
one_time header now later fields fields' first second =
    let (t, rest, left, is, got, near) =
      parse_header-Timely StreamType.server 0 now header fields first in
    let (t', rest', left', is', got', near') =
      parse_header-Timely StreamType.server 0 later header fields' second in
    let same : t ≡ t' = ground arith in omega arith

refused_twice :
    {e : Bloom} {l : LruCache} (salt : List ℕ) (x : Context e l) (now later : ℕ)
    → 0 < length salt
    → IsWellFormed x.replay_protector.nonce_ppbloom
    → later < now + l.expiry x.replay_protector.nonce_set
    → (check_nonce_replay
        (check_nonce_replay x now CipherKind.aead_2022 salt).1
        later
        CipherKind.aead_2022
        salt).0
      ≡ err IoErrorKind.other_kind
refused_twice [] x now later some_salt w soon = absurd (omega arith)
refused_twice (s ∷ salt) x now later some_salt w soon =
    check_nonce_replay_twice x now later CipherKind.aead_2022 s salt refl w soon

module _ (a : Aead) (b : Primitives) {e : Bloom} {l : LruCache} where
  -- A server that has accepted a header does not accept the same bytes again on a new stream, at any time
  -- but the second 60 seconds after, at which the set of salts may have forgotten the salt and the
  -- timestamp may still pass; the set keeps salts for 60 seconds, the filters are well formed, and
  -- nothing else has used the context between.
  pub read_whole_header_once :
      (now later : ℕ) (key h : List ℕ) (o o' : Option ℕ)
      (x y : Connection a (nonce_check e l now CipherKind.aead_2022))
      (x' y' : Connection a (nonce_check e l later CipherKind.aead_2022))
      → x.reader.stream_ty ≡ StreamType.server
      → 0 < a.salt_len
      → 0 < length h
      → IsWellFormed x.context.replay_protector.nonce_ppbloom
      → l.expiry x.context.replay_protector.nonce_set ≡ 60
      → later ≢ now + 60
      → read_whole_header a (nonce_check e l now CipherKind.aead_2022) b now key h x
        ≡ (Poll.ready (ok o), y)
      → x'.reader ≡ x.reader
      → x'.context ≡ y.context
      → read_whole_header a (nonce_check e l later CipherKind.aead_2022) b later key h x'
        ≢ (Poll.ready (ok o'), y')
  read_whole_header_once now later key h o o' x y x' y' server salted some_bytes w expiry not_then
        first same_reader same_context second =
      let salt = take a.salt_len h in
      let chunk = drop a.salt_len h in
      let (k, z, found, accepted) = read_whole_header-Accepted b now key h x y o server first in
      let (k', z', found', again) =
        read_whole_header-Accepted b later key h x' y' o'
          (ap (λ r. r.stream_ty) same_reader ∙ server) second in
      let one_key : ◌≡◌ {A = Poll (Result ProtocolError (List ℕ))} (Poll.ready (ok k))
          (Poll.ready (ok k')) =
        sym (ap (λ r. r.0) found)
        ∙ identify_lem (nonce_check e l now CipherKind.aead_2022) b now key salt chunk x
        ∙ ap (λ r. Poll.ready (key_of_header b key salt chunk r)) (sym same_reader)
        ∙ sym (identify_lem (nonce_check e l later CipherKind.aead_2022) b later key salt chunk x')
        ∙ ap (λ r. r.0) found' in
      let key_is : k' ≡ k = ground arith in
      let plain_is : plain_header a x'.reader k' h ≡ plain_header a x.reader k h =
        ap (λ t. plain_header a x'.reader t h) key_is
        ∙ ap (λ r. plain_header a r k h) same_reader in
      let late =
        one_time (plain_header a x.reader k h) now later accepted.fields again.fields
          accepted.parsed
          (sym (ap (parse_header StreamType.server 0 later) plain_is) ∙ again.parsed) in
      let twice =
        refused_twice salt x.context now later (omega (arith, length-take a.salt_len h)) w
          (omega arith) in
      let new =
        sym (
          ap (λ t. (check_nonce_replay t later CipherKind.aead_2022 salt).0)
            (same_context ∙ accepted.context_is))
        ∙ again.new in
      absurd (ground arith)

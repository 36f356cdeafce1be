-- ===== src/Aead2022/Reader/Ends/Keeps.antt =====
-- What follows the read of a header neither takes nor leaves bytes.
use mobile_android_obfuscati.Common.{
  ℕ, ◌≡◌, inl, inr, arith, ◌++◌, Bool-cases, take, drop, ltb, List, length, Option, none, some,
}
use mobile_android_obfuscati.Common.{Result, ok, err, panic, IoErrorKind}
use mobile_android_obfuscati.Aead.Async.{Poll, resume-eq-ok}
use mobile_android_obfuscati.Aead.Cipher.{Aead, NonceCheck}
use mobile_android_obfuscati.Aead2022.Connection.{Connection}
use mobile_android_obfuscati.Aead2022.Identity.{
  Primitives, ServerUser, ServerUserManager, get_user_by_hash,
}
use mobile_android_obfuscati.Aead2022.Header.{StreamType, parse_header, request_salt_len}
use mobile_android_obfuscati.Aead2022.Handshake.{
  require_eih, found_user, get_user, identify, check_nonce, check_salt, accept_header, open_header,
  overwrite, read_whole_header,
}

module _ {e : Aead} {c : NonceCheck} (b : Primitives) (now : ℕ) where
  get_user-keeps :
      (user_hash : List ℕ) (users : Option ServerUserManager) (x y : Connection e c) (k : List ℕ)
      → get_user e c b now user_hash users x ≡ (Poll.ready (ok k), y)
      → (y.stream ≡ x.stream) × (y.context ≡ x.context)
  get_user-keeps user_hash none x y k h = absurd (ground arith)
  get_user-keeps user_hash (some users) x y k h = found (get_user_by_hash user_hash users) h
    where
      found :
          (user : Option ServerUser)
          → found_user e c b now user_hash user x ≡ (Poll.ready (ok k), y)
          → (y.stream ≡ x.stream) × (y.context ≡ x.context)
      found none h = absurd (ground arith)
      found (some user) h = (ground arith, ground arith)

  pub identify-keeps :
      (key salt chunk : List ℕ) (x y : Connection e c) (k : List ℕ)
      → identify e c b now key salt chunk x ≡ (Poll.ready (ok k), y)
      → (y.stream ≡ x.stream) × (y.context ≡ x.context)
  unfolding identify
  identify-keeps key salt chunk x y k h =
      elim (Bool-cases (require_eih x.reader.stream_ty x.reader.method x.reader.user_manager)) [
        | inr plain ↦ (ground arith, ground arith)
        | inl eih ↦ elim (Bool-cases (ltb (length chunk) 16)) [
          | inl short ↦ absurd (ground arith)
          | inr enough ↦ get_user-keeps _ x.reader.user_manager x y k (rw (eih, enough) at h)
        ]
      ]

  check_salt-keeps :
      (ty : StreamType) (salt : List ℕ) (x y : Connection e c)
      → check_salt e c b now ty salt x ≡ (Poll.ready (ok tt), y)
      → y.stream ≡ x.stream
  check_salt-keeps StreamType.client salt x y h = ground arith
  check_salt-keeps StreamType.server salt x y h = go (c.check_nonce_replay x.context salt) h
    where
      go :
          (r : Result IoErrorKind (Unit {0}) × c.Context)
          → check_nonce e c b now x r ≡ (Poll.ready (ok tt), y)
          → y.stream ≡ x.stream
      go (ok _, context) h = ground arith
      go (err k, context) h = absurd (ground arith)
      go (panic, context) h = absurd (ground arith)

  accept_header-keeps :
      (ty : StreamType) (salt : List ℕ) (s : e.Cipher) (f : Option (List ℕ) × ℕ)
      (x y : Connection e c) (o : Option ℕ)
      → accept_header e c b now ty salt s f x ≡ (Poll.ready (ok o), y)
      → y.stream ≡ x.stream
  unfolding accept_header
  accept_header-keeps ty salt s (none, n) x y o =
      resume-eq-ok (check_salt e c b now ty salt x) _
        (λ _ z checked rest. let same = check_salt-keeps ty salt x z checked in ground arith)
  accept_header-keeps ty salt s (some request_salt, n) x y o =
      let x' = record x { reader = record x.reader { request_salt = some request_salt } } in
      resume-eq-ok (check_salt e c b now ty salt x') _
        (λ _ z checked rest. let same = check_salt-keeps ty salt x' z checked in ground arith)

  open_header-keeps :
      (ty : StreamType) (salt front chunk : List ℕ) (s : e.Cipher) (x y : Connection e c)
      (o : Option ℕ)
      → open_header e c b now ty salt front chunk s x ≡ (Poll.ready (ok o), y)
      → y.stream ≡ x.stream
  unfolding open_header
  open_header-keeps ty salt front chunk s x y o h =
      let (valid, plain, next) = e.decrypt_packet s chunk in
      let x' = record x {
        reader = record x.reader { buffer = overwrite (front ++ plain) x.reader.buffer };
      } in
      elim (Bool-cases valid) [
        | inr broken ↦ absurd (ground arith)
        | inl sound ↦
            resume-eq-ok
              (Poll.ready (parse_header ty (request_salt_len ty e.salt_len) now plain), x') _
              (λ f z parsed rest.
                let same = accept_header-keeps ty salt next f z y o rest in ground arith)
              (rw sound at h)
      ]

  pub read_whole_header-keeps :
      (key h : List ℕ) (x y : Connection e c) (o : Option ℕ)
      → read_whole_header e c b now key h x ≡ (Poll.ready (ok o), y)
      → y.stream ≡ x.stream
  unfolding read_whole_header
  read_whole_header-keeps key h x y o =
      resume-eq-ok (identify e c b now key (take e.salt_len h) (drop e.salt_len h) x) _
        (λ k z found rest.
          let same = identify-keeps key _ _ x z k found in
          let same' = open_header-keeps x.reader.stream_ty _ _ _ _ z y o rest in ground arith)

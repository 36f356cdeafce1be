-- ===== src/Aead2022/Handshake/Agrees/Opens.antt =====
-- What a reader makes of the header behind the salt and the identity header.
use mobile_android_obfuscati.Common.{
  ℕ, ◌^◌, ◌≤◌, ◌<◌, ◌≡◌, ◌⊎◌, inl, inr, refl, sym, ap, ◌∙◌, List, ◌++◌, length, drop,
  take-append-drop, Option, none, some,
}
use mobile_android_obfuscati.Common.{ok}
use mobile_android_obfuscati.Aead.Async.{Poll}
use mobile_android_obfuscati.Aead.Cipher.{Aead, NonceCheck}
use mobile_android_obfuscati.Aead2022.Identity.{Primitives}
use mobile_android_obfuscati.Aead2022.Header.{
  StreamType, abs_diff, request_salt_len, parse_header, make_header,
}
use mobile_android_obfuscati.Aead2022.Header.RoundTrip.{peer, SaltFits, parse_header-make_header}
use mobile_android_obfuscati.Aead2022.Connection.{Connection}
use mobile_android_obfuscati.Aead2022.Handshake.{
  overwrite, check_nonce, check_salt, accept_header, open_header,
}

module _ {e : Aead} {c : NonceCheck} where
  -- A server accepts the salt.
  abbrev pub SaltIsNew : StreamType → List ℕ → Connection e c → Type 0
  SaltIsNew StreamType.client salt x = Unit
  SaltIsNew StreamType.server salt x = (c.check_nonce_replay x.context salt).0 ≡ ok tt

module _ {e : Aead} {c : NonceCheck} (b : Primitives) (now : ℕ) where
  -- What the reader has after the header.
  pub record Opened (salt : List ℕ) (request_salt : Option (List ℕ)) (cipher : e.Cipher)
      (x y : Connection e c) : Type 0 where
    pub cipher_is : y.reader.cipher ≡ some cipher
    pub salt_is : y.reader.salt ≡ some salt
    pub request_salt_is : (request_salt ≡ none) ⊎ (y.reader.request_salt ≡ request_salt)
    pub user_key_is : y.reader.user_key ≡ x.reader.user_key
    pub stream_is : y.stream ≡ x.stream

  check_salt-new :
      (ty : StreamType) (salt : List ℕ) (x : Connection e c)
      → SaltIsNew ty salt x
      → (context : c.Context) × (check_salt e c b now ty salt x
          ≡ (Poll.ready (ok tt), record x { context = context }))
  check_salt-new StreamType.client salt x new = (x.context, refl)
  check_salt-new StreamType.server salt x new =
      let checked = c.check_nonce_replay x.context salt in
      (checked.1, ap (λ r. check_nonce e c b now x (r, checked.1)) new)

  pub still_new :
      (ty : StreamType) (salt : List ℕ) (x y : Connection e c)
      → y.context ≡ x.context
      → SaltIsNew ty salt x
      → SaltIsNew ty salt y
  still_new StreamType.client salt x y same new = tt
  still_new StreamType.server salt x y same new =
      ap (λ t. (c.check_nonce_replay t salt).0) same ∙ new

  accept_header-Opened :
      (ty : StreamType) (salt : List ℕ) (cipher : e.Cipher) (request_salt : Option (List ℕ)) (n : ℕ)
      (x : Connection e c)
      → SaltIsNew ty salt x
      → (y : Connection e c) × (accept_header e c b now ty salt cipher (request_salt, n) x
          ≡ (Poll.ready (ok (some n)), y))
        × Opened salt request_salt cipher x y
  unfolding accept_header
  accept_header-Opened ty salt cipher none n x new =
      let (context, checked) = check_salt-new ty salt x new in
      (
        record {
          reader = record x.reader { salt = some salt; cipher = some cipher };
          context = context;
          stream = x.stream;
        },
        rw checked refl,
        record {
          cipher_is = refl;
          salt_is = refl;
          request_salt_is = inl refl;
          user_key_is = refl;
          stream_is = refl;
        },
      )
  accept_header-Opened ty salt cipher (some request_salt) n x new =
      let x' = record x { reader = record x.reader { request_salt = some request_salt } } in
      let (context, checked) = check_salt-new ty salt x' (still_new ty salt x x' refl new) in
      (
        record {
          reader = record x'.reader { salt = some salt; cipher = some cipher };
          context = context;
          stream = x.stream;
        },
        rw checked refl,
        record {
          cipher_is = refl;
          salt_is = refl;
          request_salt_is = inr refl;
          user_key_is = refl;
          stream_is = refl;
        },
      )

  pub open_header-Opened :
      (ty : StreamType) (salt front : List ℕ) (cipher : e.Cipher) (time n : ℕ)
      (request_salt : Option (List ℕ)) (x : Connection e c)
      → SaltFits ty e.salt_len request_salt
      → time < 2 ^ 64
      → abs_diff now time ≤ 30
      → n < 65536
      → SaltIsNew (peer ty) salt x
      → let m = e.encrypt_packet cipher (make_header ty time request_salt n) in
        (y : Connection e c) × (open_header e c b now (peer ty) salt front m.0 cipher x
          ≡ (Poll.ready (ok (some n)), y))
        × Opened salt request_salt m.1 x y
  unfolding open_header
  open_header-Opened ty salt front cipher time n request_salt x fits small timely short new =
      let header = make_header ty time request_salt n in
      let m = e.encrypt_packet cipher header in
      let (valid, plain, next) = e.decrypt-encrypt cipher header in
      let d = e.decrypt_packet cipher m.0 in
      let x' = record x {
        reader = record x.reader { buffer = overwrite (front ++ d.1) x.reader.buffer };
      } in
      let whole : d.1 ≡ header ++ drop (length header) d.1 =
        sym (take-append-drop (length header) d.1)
        ∙ ap (λ t. t ++ drop (length header) d.1) plain in
      let parsed : parse_header (peer ty) (request_salt_len (peer ty) e.salt_len) now d.1
          ≡ ok (request_salt, n) =
        ap (parse_header (peer ty) (request_salt_len (peer ty) e.salt_len) now) whole
        ∙ parse_header-make_header ty e.salt_len time now n request_salt (drop (length header) d.1)
            fits small timely short in
      let (y, accepted, opened) =
        accept_header-Opened (peer ty) salt m.1 request_salt n x'
          (still_new (peer ty) salt x x' refl new) in
      (
        y,
        rw (valid, parsed, next) accepted,
        record {
          cipher_is = opened.cipher_is;
          salt_is = opened.salt_is;
          request_salt_is = opened.request_salt_is;
          user_key_is = opened.user_key_is;
          stream_is = opened.stream_is;
        },
      )

-- ===== src/Aead2022/Handshake/Accepted.antt =====
-- What a server has found out when it accepts a header.
use mobile_android_obfuscati.Common.{
  ℕ, ◌+◌, ◌≡◌, inl, inr, refl, sym, ap, ◌∙◌, arith, Bool-cases, List, ◌++◌, drop, take,
  if◌then◌else◌, Option, none, some,
}
use mobile_android_obfuscati.Common.{Result, ok, err, panic, IoErrorKind}
use mobile_android_obfuscati.Aead.Async.{Poll, resume-eq-ok}
use mobile_android_obfuscati.Aead.Cipher.{Aead, NonceCheck}
use mobile_android_obfuscati.Aead2022.Identity.{Primitives}
use mobile_android_obfuscati.Aead2022.Header.{StreamType, parse_header}
use mobile_android_obfuscati.Aead2022.Reader.Ends.Keeps.{identify-keeps}
use mobile_android_obfuscati.Aead2022.Connection.{DecryptedReader, Connection}
use mobile_android_obfuscati.Aead2022.Handshake.{
  overwrite, require_eih, identify, check_nonce, check_salt, accept_header, open_header,
  read_whole_header,
}

module _ (e : Aead) where
  abbrev pub eih_len : DecryptedReader e → ℕ
  eih_len r = if require_eih r.stream_ty r.method r.user_manager then 16 else 0

  -- The decrypted header.
  abbrev pub plain_header : DecryptedReader e → List ℕ → List ℕ → List ℕ
  plain_header r cipher_key h =
      (e.decrypt_packet (e.new cipher_key (take e.salt_len h))
        (drop (eih_len r) (drop e.salt_len h))).1

module _ {e : Aead} {c : NonceCheck} (b : Primitives) (now : ℕ) where
  check_nonce-context :
      (x z : Connection e c) (r : Result IoErrorKind (Unit {0}) × c.Context)
      → check_nonce e c b now x r ≡ (Poll.ready (ok tt), z)
      → (z.context ≡ r.1) × (r.0 ≡ ok tt)
  check_nonce-context x z (ok tt, context) h = (ground arith, refl)
  check_nonce-context x z (err k, context) h = absurd (ground arith)
  check_nonce-context x z (panic, context) h = absurd (ground arith)

  abbrev Checked : List ℕ → Connection e c → Connection e c → Type 0
  Checked salt x y =
      (y.context ≡ (c.check_nonce_replay x.context salt).1)
      × ((c.check_nonce_replay x.context salt).0 ≡ ok tt)

  accept_header-Checked :
      (salt : List ℕ) (s : e.Cipher) (f : Option (List ℕ) × ℕ) (x y : Connection e c) (o : Option ℕ)
      → accept_header e c b now StreamType.server salt s f x ≡ (Poll.ready (ok o), y)
      → Checked salt x y
  unfolding accept_header
  accept_header-Checked salt s (none, n) x y o =
      resume-eq-ok (check_salt e c b now StreamType.server salt x) _ (λ _ z checked rest.
        let (same, new) = check_nonce-context x z (c.check_nonce_replay x.context salt) checked in
        (ground arith, new))
  accept_header-Checked salt s (some request_salt, n) x y o =
      let x' = record x { reader = record x.reader { request_salt = some request_salt } } in
      resume-eq-ok (check_salt e c b now StreamType.server salt x') _ (λ _ z checked rest.
        let (same, new) = check_nonce-context x' z (c.check_nonce_replay x.context salt) checked in
        (ground arith, new))

  -- The header is well formed, in time, and its salt is new.
  pub record Accepted (h : List ℕ) (cipher_key : List ℕ) (x y : Connection e c) : Type 0 where
    pub fields : Option (List ℕ) × ℕ
    pub parsed :
        parse_header StreamType.server 0 now (plain_header e x.reader cipher_key h) ≡ ok fields
    pub context_is : y.context ≡ (c.check_nonce_replay x.context (take e.salt_len h)).1
    pub new : (c.check_nonce_replay x.context (take e.salt_len h)).0 ≡ ok tt

  open_header-Accepted :
      (h cipher_key front : List ℕ) (x z y : Connection e c) (o : Option ℕ)
      → z.context ≡ x.context
      → open_header e c b now StreamType.server
          (take e.salt_len h)
          front
          (drop (eih_len e x.reader) (drop e.salt_len h))
          (e.new cipher_key (take e.salt_len h))
          z
        ≡ (Poll.ready (ok o), y)
      → Accepted h cipher_key x y
  unfolding open_header
  open_header-Accepted h cipher_key front x z y o same is =
      let salt = take e.salt_len h in
      let (valid, plain, next) =
        e.decrypt_packet (e.new cipher_key salt) (drop (eih_len e x.reader) (drop e.salt_len h)) in
      let z' = record z {
        reader = record z.reader { buffer = overwrite (front ++ plain) z.reader.buffer };
      } in
      elim (Bool-cases valid) [
        | inr broken ↦ absurd (ground arith)
        | inl sound ↦
            resume-eq-ok (Poll.ready (parse_header StreamType.server 0 now plain), z') _
              (λ f w parsed rest.
                let (context, new) = accept_header-Checked salt next f z' y o (
                  ap (accept_header e c b now StreamType.server salt next f) (ground arith)
                  ∙ rest) in
                record {
                  fields = f;
                  parsed = ground arith;
                  context_is = context ∙ ap (λ t. (c.check_nonce_replay t salt).1) same;
                  new = ap (λ t. (c.check_nonce_replay t salt).0) (sym same) ∙ new;
                })
              (rw sound at is)
      ]

  -- A server that accepts a header knows the key of the client.
  pub read_whole_header-Accepted :
      (key h : List ℕ) (x y : Connection e c) (o : Option ℕ)
      → x.reader.stream_ty ≡ StreamType.server
      → read_whole_header e c b now key h x ≡ (Poll.ready (ok o), y)
      → (cipher_key : List ℕ) × (z : Connection e c) × (identify e c b now key
            (take e.salt_len h)
            (drop e.salt_len h)
            x
          ≡ (Poll.ready (ok cipher_key), z))
        × Accepted h cipher_key x y
  unfolding read_whole_header
  read_whole_header-Accepted key h x y o server =
      resume-eq-ok (identify e c b now key (take e.salt_len h) (drop e.salt_len h) x) _
        (λ cipher_key z found rest.
          let (_, context) =
            identify-keeps b now key (take e.salt_len h) (drop e.salt_len h) x z cipher_key found in
          let front = take (e.salt_len + eih_len e x.reader) h in
          (
            cipher_key,
            z,
            found,
            open_header-Accepted h cipher_key front x z y o context (
                ap
                  (λ t.
                    open_header e c b now t (take e.salt_len h) front
                      (drop (eih_len e x.reader) (drop e.salt_len h))
                      (e.new cipher_key (take e.salt_len h)) z)
                  (sym server)
                ∙ rest),
          ))

-- ===== src/Aead2022/Handshake/Rejects.antt =====
-- Headers that a reader does not accept.
use mobile_android_obfuscati.Common.{
  ℕ, ◌+◌, ◌≤◌, ◌<◌, ◌≡◌, ◌==◌, ◌≢◌, inl, inr, refl, sym, ap, ◌∙◌, arith, ltb, leb, Bool-cases, true,
  false, List, [], ◌∷◌, ◌++◌, length, drop, take, if◌then◌else◌, Option, none, some,
}
use mobile_android_obfuscati.Common.{ok, err, >>=-eq-ok, IoErrorKind}
use mobile_android_obfuscati.Common.Bytes.{get_u8, get_uint}
use mobile_android_obfuscati.Aead.Async.{Poll, resume-eq-ok}
use mobile_android_obfuscati.Aead.Cipher.{Aead, NonceCheck}
use mobile_android_obfuscati.Aead.Transport.{ReadEvent, poll_read}
use mobile_android_obfuscati.Aead2022.Identity.{Primitives}
use mobile_android_obfuscati.Aead2022.Header.{
  StreamType, ProtocolError, abs_diff, request_salt_len, expected_stream_type, parse_header,
}
use mobile_android_obfuscati.Replay.ReplayProtector.{server_stream_timestamp_max_diff}
use mobile_android_obfuscati.Aead2022.Reader.Ends.Keeps.{identify-keeps}
use mobile_android_obfuscati.Aead2022.Connection.{Connection}
use mobile_android_obfuscati.Aead2022.Handshake.{
  header_len, overwrite, require_eih, identify, check_nonce, check_salt, accept_header, open_header,
  read_whole_header, poll_header, poll_read_header,
}

-- A header that is accepted has the type of the other end and a timestamp within 30 seconds of the clock.
pub parse_header-Timely :
    (ty : StreamType) (size now : ℕ) (header : List ℕ) (fields : Option (List ℕ) × ℕ)
    → parse_header ty size now header ≡ ok fields
    → (time : ℕ) × (rest left : List ℕ) × (header ≡ expected_stream_type ty ∷ rest)
      × (get_uint {E = ProtocolError} 8 0 rest ≡ ok (time, left))
      × (abs_diff now time ≤ 30)
unfolding parse_header get_u8
parse_header-Timely ty size now [] fields h = absurd (ground arith)
parse_header-Timely ty size now (found ∷ rest) fields h =
    elim (Bool-cases (found == expected_stream_type ty)) [
      | inr other ↦ absurd (ground arith)
      | inl same ↦
          let (value, got, more) =
            >>=-eq-ok (get_uint {E = ProtocolError} 8 0 rest) _ (rw same at h) in
          elim (Bool-cases (ltb server_stream_timestamp_max_diff (abs_diff now value.0))) [
            | inl late ↦ absurd (ground arith)
            | inr timely ↦ (value.0, rest, value.1, ground arith, got, ground arith)
          ]
    ]

module _ (e : Aead) (c : NonceCheck) (b : Primitives) where
  -- A header that does not arrive in one piece is an error, which tells the length that is wanted and the
  -- length of the first piece, whatever arrives behind it.
  pub poll_read_header-in_parts :
      (now : ℕ) (key bs : List ℕ) (x : Connection e c) (es : List ReadEvent)
      → x.stream ≡ ReadEvent.arrived bs ∷ es
      → 0 < length bs
      → length bs < header_len x.reader
      → (poll_read_header e c b now key x).0
        ≡ Poll.ready (err (ProtocolError.header_too_short (header_len x.reader) (length bs)))
  unfolding poll_read_header poll_header poll_read
  poll_read_header-in_parts now key bs x es comes some_bytes short =
      let len = header_len x.reader in
      let fits : leb (length bs) len ≡ true = ground arith in
      let some_header : (length bs == 0) ≡ false = ground arith in
      let part : (length bs == len) ≡ false = ground arith in
      rw (comes, fits, some_header, part) refl

  check_salt-refused :
      (now : ℕ) (salt : List ℕ) (x : Connection e c) (k : IoErrorKind)
      → (c.check_nonce_replay x.context salt).0 ≡ err k
      → check_salt e c b now StreamType.server salt x ≡ (
        Poll.ready (err (ProtocolError.io_error k)),
        record x { context = (c.check_nonce_replay x.context salt).1 },
      )
  check_salt-refused now salt x k refused =
      ap (λ r. check_nonce e c b now x (r, (c.check_nonce_replay x.context salt).1)) refused

  accept_header-refused :
      (now : ℕ) (salt : List ℕ) (s : e.Cipher) (fields : Option (List ℕ) × ℕ) (x y : Connection e c)
      (o : Option ℕ) (k : IoErrorKind)
      → (c.check_nonce_replay x.context salt).0 ≡ err k
      → accept_header e c b now StreamType.server salt s fields x ≢ (Poll.ready (ok o), y)
  unfolding accept_header
  accept_header-refused now salt s (none, n) x y o k refused h =
      let rejected = check_salt-refused now salt x k refused in absurd (ground arith)
  accept_header-refused now salt s (some request_salt, n) x y o k refused h =
      let x' = record x { reader = record x.reader { request_salt = some request_salt } } in
      let rejected = check_salt-refused now salt x' k refused in absurd (ground arith)

  open_header-refused :
      (now : ℕ) (salt front chunk : List ℕ) (s : e.Cipher) (x y : Connection e c) (o : Option ℕ)
      (k : IoErrorKind)
      → (c.check_nonce_replay x.context salt).0 ≡ err k
      → open_header e c b now StreamType.server salt front chunk s x ≢ (Poll.ready (ok o), y)
  unfolding open_header
  open_header-refused now salt front chunk s x y o k refused h =
      let (valid, plain, next) = e.decrypt_packet s chunk in
      let x' = record x {
        reader = record x.reader { buffer = overwrite (front ++ plain) x.reader.buffer };
      } in
      elim (Bool-cases valid) [
        | inr broken ↦ absurd (ground arith)
        | inl sound ↦
            resume-eq-ok {P = ⊥}
              (
                Poll.ready (
                    parse_header StreamType.server (request_salt_len StreamType.server e.salt_len)
                      now plain),
                x',
              )
              _
              (λ f z parsed rest.
                accept_header-refused now salt next f x' y o k refused (ground arith))
              (rw sound at h)
      ]

  -- A server that refuses the salt does not accept the header behind it.
  pub read_whole_header-refused :
      (now : ℕ) (key h : List ℕ) (x y : Connection e c) (o : Option ℕ) (k : IoErrorKind)
      → x.reader.stream_ty ≡ StreamType.server
      → (c.check_nonce_replay x.context (take e.salt_len h)).0 ≡ err k
      → read_whole_header e c b now key h x ≢ (Poll.ready (ok o), y)
  unfolding read_whole_header
  read_whole_header-refused now key h x y o k server refused =
      resume-eq-ok {P = ⊥} (identify e c b now key (take e.salt_len h) (drop e.salt_len h) x) _
        (λ cipher_key z found rest.
          let (_, context) =
            identify-keeps b now key (take e.salt_len h) (drop e.salt_len h) x z cipher_key found in
          open_header-refused now (take e.salt_len h) _ _ _ z y o k
            (ap (λ t. (c.check_nonce_replay t (take e.salt_len h)).0) context ∙ refused)
            (ap
                (λ t.
                  open_header e c b now t (take e.salt_len h)
                    (take
                      (e.salt_len
                        + (if require_eih x.reader.stream_ty x.reader.method x.reader.user_manager
                            then 16
                            else 0))
                      h)
                    (drop
                      (if require_eih x.reader.stream_ty x.reader.method x.reader.user_manager
                        then 16
                        else 0)
                      (drop e.salt_len h))
                    (e.new cipher_key (take e.salt_len h)) z)
                (sym server)
              ∙ rest))

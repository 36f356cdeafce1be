-- ===== src/Aead2022/Reader/Ends.antt =====
-- The loop of `poll_read_decrypted` ends: each of its turns takes bytes, or leaves the buffered data.
pub mod Bounds
pub mod Keeps
use mobile_android_obfuscati.Common.{
  ℕ, zero, suc, ◌+◌, ◌*◌, ◌≤◌, ◌<◌, ◌≡◌, ◌⊎◌, inl, inr, refl, sym, arith, ◌==◌, ◌++◌, Bool,
  Bool-cases, length-append, take, drop, length-take, length-drop, ltb, [], ◌∷◌, Option-cases, List,
  length, Option, none, some,
}
use mobile_android_obfuscati.Common.{Result, ok, err, panic, IoErrorKind}
use mobile_android_obfuscati.Aead.Async.{Poll, resume-eq-ok}
use mobile_android_obfuscati.Aead.Cipher.{Aead, NonceCheck}
use mobile_android_obfuscati.Aead.Transport.{incoming}
use mobile_android_obfuscati.Aead2022.Connection.{DecryptReadState, Connection}
use mobile_android_obfuscati.Aead2022.Identity.{
  Primitives, ServerUser, ServerUserManager, get_user_by_hash,
}
use mobile_android_obfuscati.Aead2022.Header.{
  StreamType, ProtocolError, parse_header, request_salt_len,
}
use mobile_android_obfuscati.Aead2022.Handshake.{
  header_len, resize_up, require_eih, polled_header, poll_header, found_user, get_user, identify,
  check_nonce, check_salt, accept_header, open_header, overwrite, read_whole_header,
  poll_read_header, turn_read_header,
}
use mobile_android_obfuscati.Aead.Reader.{fill}
use mobile_android_obfuscati.Aead.Transport.{ReadEvent, poll_read}
use mobile_android_obfuscati.Aead2022.Reader.{
  filled, poll_read_exact, decrypt_buffer, decrypt_length, poll_read_length, poll_read_data,
  turn_read_length, turn_read_data, turn_buffered_data, dispatch, turn, Answer, after_turn,
  read_loop, enough_fuel, poll_read_decrypted,
}
use mobile_android_obfuscati.Aead.Reader.Fill.{Outcome, fill_bounds}
use mobile_android_obfuscati.Aead2022.Reader.Ends.Bounds.{
  poll_read-less, total, work, turn_read_length-falls, turn_read_data-falls,
  turn_buffered_data-falls,
}
use mobile_android_obfuscati.Aead2022.Reader.Ends.Keeps.{read_whole_header-keeps}

module _ {e : Aead} {c : NonceCheck} (b : Primitives) (now : ℕ) where
  polled_header-less :
      (n : ℕ) (x : Connection e c) (r : Poll (Result IoErrorKind (List ℕ)) × List ReadEvent)
      (bs : List ℕ) (y : Connection e c)
      → r ≡ poll_read n x.stream
      → polled_header e c b now x r ≡ (Poll.ready (ok bs), y)
      → length bs + length (incoming y.stream) ≡ length (incoming x.stream)
  polled_header-less n x (Poll.pending, stream) bs y is h = absurd (ground arith)
  polled_header-less n x (Poll.ready (ok new), stream) bs y is h =
      ground (arith, poll_read-less n x.stream new stream (sym is))
  polled_header-less n x (Poll.ready (err k), stream) bs y is h = absurd (ground arith)
  polled_header-less n x (Poll.ready panic, stream) bs y is h = absurd (ground arith)

  poll_header-less :
      (x : Connection e c) (bs : List ℕ) (y : Connection e c)
      → poll_header e c b now x ≡ (Poll.ready (ok bs), y)
      → length bs + length (incoming y.stream) ≡ length (incoming x.stream)
  unfolding poll_header
  poll_header-less x bs y h =
      polled_header-less (header_len x.reader)
        (record x {
          reader = record x.reader { buffer = resize_up (header_len x.reader) x.reader.buffer };
        })
        (poll_read (header_len x.reader) x.stream) bs y refl h

  turn_read_header-falls :
      (key : List ℕ) (x y : Connection e c)
      → turn_read_header e c b now key x ≡ (Poll.ready (ok none), y)
      → work y.reader.state y < 2 * total x
  unfolding turn_read_header poll_read_header
  turn_read_header-falls key x y =
      resume-eq-ok (poll_read_header e c b now key x) _ (λ o x1 read rest.
        resume-eq-ok (poll_header e c b now x) _
          (λ bs x2 polled whole.
            let less = poll_header-less x bs x2 polled in
            elim (Bool-cases (length bs == 0)) [
              | inl eof ↦ absurd (ground arith)
              | inr some_bytes ↦ elim (Bool-cases (length bs == header_len x.reader)) [
                | inr short ↦ absurd (ground arith)
                | inl all ↦
                    let same =
                      read_whole_header-keeps b now key bs x2 x1 o
                        (rw (some_bytes, all) at whole) in
                    elim (Option-cases o) [
                      | inl no_length ↦ absurd (ground arith)
                      | inr (n, is) ↦ ground arith
                    ]
              ]
            ])
          read)

  dispatch-falls :
      (remaining : ℕ) (s : DecryptReadState) (x y : Connection e c)
      → dispatch e c b now remaining s x ≡ (Poll.ready (ok none), y)
      → work y.reader.state y < work s x
  dispatch-falls remaining (DecryptReadState.read_header key) x y h =
      turn_read_header-falls key x y h
  dispatch-falls remaining DecryptReadState.read_length x y h = turn_read_length-falls x y h
  dispatch-falls remaining (DecryptReadState.read_data n) x y h = turn_read_data-falls n x y h
  dispatch-falls remaining (DecryptReadState.buffered_data pos) x y h =
      turn_buffered_data-falls remaining pos x y h

  after_turn-answers :
      (r : Poll (Result ProtocolError (Option (List ℕ))) × Connection e c)
      (again : Connection e c → Option (Answer e c))
      → ((y : Connection e c)
          → r ≡ (Poll.ready (ok none), y)
          → (a : Answer e c) × (again y ≡ some a))
      → (a : Answer e c) × (after_turn e c r again ≡ some a)
  after_turn-answers (Poll.pending, y) again k = (_, refl)
  after_turn-answers (Poll.ready (ok (some out)), y) again k = (_, refl)
  after_turn-answers (Poll.ready (ok none), y) again k = k y refl
  after_turn-answers (Poll.ready (err failure), y) again k = (_, refl)
  after_turn-answers (Poll.ready panic, y) again k = (_, refl)

  read_loop_answers :
      (fuel remaining : ℕ) (x : Connection e c)
      → work x.reader.state x < fuel
      → (a : Answer e c) × (read_loop e c b now fuel remaining x ≡ some a)
  unfolding read_loop turn
  read_loop_answers zero remaining x h = absurd (omega arith)
  read_loop_answers (suc fuel) remaining x h =
      after_turn-answers (turn e c b now remaining x) (read_loop e c b now fuel remaining)
        (λ y more.
          let falls = dispatch-falls remaining x.reader.state x y more in
          read_loop_answers fuel remaining y (omega arith))

  work-le : (s : DecryptReadState) (x : Connection e c) → work s x < enough_fuel e c x
  work-le (DecryptReadState.read_header key) x = omega arith
  work-le DecryptReadState.read_length x = omega arith
  work-le (DecryptReadState.read_data n) x = omega arith
  work-le (DecryptReadState.buffered_data pos) x = omega arith

  -- A poll of a reader of AEAD 2022 comes to an end, in every state, at every time, over every stream
  -- and whatever the ciphers and the check of nonces do.
  pub poll_read_decrypted_2022_total :
      (remaining : ℕ) (x : Connection e c)
      → (a : Answer e c) × (poll_read_decrypted e c b now remaining x ≡ some a)
  unfolding poll_read_decrypted
  poll_read_decrypted_2022_total remaining x =
      read_loop_answers (enough_fuel e c x) remaining x (work-le x.reader.state x)

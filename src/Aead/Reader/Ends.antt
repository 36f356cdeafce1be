-- ===== src/Aead/Reader/Ends.antt =====
-- The loop of `poll_read_decrypted` ends: each of its turns takes bytes, or leaves the buffered data.
use mobile_android_obfuscati.Common.{
  ℕ, zero, suc, ◌+◌, ◌*◌, ◌≤◌, ◌<◌, ◌≡◌, ◌⊎◌, inl, inr, refl, arith, ◌==◌, Bool, Bool-cases,
  Option-cases, List, length, Option, none, some,
}
use mobile_android_obfuscati.Common.{Result, ok, err, panic, IoErrorKind}
use mobile_android_obfuscati.Aead.Async.{Poll, resume-eq-ok}
use mobile_android_obfuscati.Aead.Cipher.{Aead, NonceCheck}
use mobile_android_obfuscati.Aead.Transport.{incoming}
use mobile_android_obfuscati.Aead.Reader.{
  ProtocolError, DecryptReadState, Connection, filled, fill, poll_read_exact, poll_read_salt,
  decrypt_buffer, decrypt_length, poll_read_length, check_salt, salt_checked, poll_read_data,
  turn_wait_salt, turn_read_length, turn_read_data, turn_buffered_data, dispatch, turn, Answer,
  after_turn, read_loop, enough_fuel, poll_read_decrypted,
}
use mobile_android_obfuscati.Aead.Reader.Fill.{Outcome, fill_bounds}

module _ {e : Aead} {c : NonceCheck} where
  abbrev total : Connection e c → ℕ
  total x = length x.reader.buffer + length (incoming x.stream)

  -- Data that is buffered is paid for; all other bytes take two turns each.
  abbrev work : DecryptReadState → Connection e c → ℕ
  work (DecryptReadState.wait_salt key) x = 2 * total x
  work DecryptReadState.read_length x = 2 * total x
  work (DecryptReadState.read_data n) x = 2 * total x
  work (DecryptReadState.buffered_data pos) x = 2 * length (incoming x.stream) + 1

  filled_bounds :
      (size : ℕ) (x : Connection e c) (r : Outcome) (n : ℕ) (y : Connection e c)
      → (length r.1 + length (incoming r.2) ≤ total x)
        × ((n : ℕ) → r.0 ≡ Poll.ready (ok n) → (n ≡ 0) ⊎ ((n ≡ size) × (size ≤ length r.1)))
      → filled e c x r ≡ (Poll.ready (ok n), y)
      → (total y ≤ total x) × ((n ≡ 0) ⊎ ((n ≡ size) × (size ≤ length y.reader.buffer)))
  filled_bounds size x (Poll.pending, buffer, es) n y h eq = absurd (ground arith)
  filled_bounds size x (Poll.ready (ok m), buffer, es) n y h eq = ground (arith, h.1 m refl)
  filled_bounds size x (Poll.ready (err k), buffer, es) n y h eq = absurd (ground arith)
  filled_bounds size x (Poll.ready panic, buffer, es) n y h eq = absurd (ground arith)

  pub poll_read_exact_bounds :
      (size : ℕ) (x : Connection e c) (n : ℕ) (y : Connection e c)
      → poll_read_exact e c size x ≡ (Poll.ready (ok n), y)
      → (0 < size)
        × (total y ≤ total x)
        × ((n ≡ 0) ⊎ ((n ≡ size) × (size ≤ length y.reader.buffer)))
  unfolding poll_read_exact
  poll_read_exact_bounds size x n y h = elim (Bool-cases (size == 0)) [
    | inl empty ↦ absurd (ground arith)
    | inr wanted ↦
        let (less, some_bytes) =
          filled_bounds size x (fill size x.reader.buffer x.stream) n y
            (fill_bounds size x.reader.buffer x.stream) (ground arith) in
        (ground arith, less, some_bytes)
  ]

  turn_wait_salt-falls :
      (key : List ℕ) (x y : Connection e c)
      → turn_wait_salt e c key x ≡ (Poll.ready (ok none), y)
      → work y.reader.state y < 2 * total x
  unfolding turn_wait_salt poll_read_salt
  turn_wait_salt-falls key x y = resume-eq-ok (poll_read_salt e c key x) _ (λ _ x1 salted rest.
      resume-eq-ok (poll_read_exact e c e.salt_len x) _
        (λ n x2 exact salt.
          let bounds = poll_read_exact_bounds e.salt_len x n x2 exact in ground arith)
        salted)

  decrypt_buffer-keeps :
      (len : ℕ) (x y : Connection e c) (valid : Bool)
      → decrypt_buffer e c len x ≡ (Poll.ready (ok valid), y)
      → (y.stream ≡ x.stream) × (y.reader.state ≡ x.reader.state)
  unfolding decrypt_buffer
  decrypt_buffer-keeps len x y valid h = ground arith

  decrypt_length-keeps :
      (len : ℕ) (x y : Connection e c) (plen : ℕ)
      → decrypt_length e c len x ≡ (Poll.ready (ok plen), y)
      → y.stream ≡ x.stream
  unfolding decrypt_length
  decrypt_length-keeps len x y plen =
      resume-eq-ok (decrypt_buffer e c len x) _ (λ valid x1 decrypted checked.
        let same = decrypt_buffer-keeps len x x1 valid decrypted in ground arith)

  turn_read_length-falls :
      (x y : Connection e c)
      → turn_read_length e c x ≡ (Poll.ready (ok none), y)
      → work y.reader.state y < 2 * total x
  unfolding turn_read_length poll_read_length decrypt_length
  turn_read_length-falls x y = resume-eq-ok (poll_read_length e c x) _ (λ length x1 lengths rest.
      resume-eq-ok (poll_read_exact e c (2 + e.tag_len) x) _
        (λ n x2 exact decrypted.
          let bounds = poll_read_exact_bounds (2 + e.tag_len) x n x2 exact in
          elim (Bool-cases (n == 0)) [
            | inl eof ↦ absurd (ground arith)
            | inr some_bytes ↦
                resume-eq-ok (decrypt_length e c (2 + e.tag_len) x2) _
                  (λ k x3 decrypt tail.
                    let same = decrypt_length-keeps (2 + e.tag_len) x2 x3 k decrypt in ground arith)
                  (rw some_bytes at decrypted)
          ])
        lengths)

  salt_checked-keeps :
      (x : Connection e c) (r : Result IoErrorKind (Unit {0}) × c.Context) (y : Connection e c)
      → salt_checked e c x r ≡ (Poll.ready (ok tt), y)
      → y.stream ≡ x.stream
  salt_checked-keeps x (ok _, context) y h = ground arith
  salt_checked-keeps x (err k, context) y h = absurd (ground arith)
  salt_checked-keeps x (panic, context) y h = absurd (ground arith)

  check_salt-keeps :
      (x y : Connection e c) → check_salt e c x ≡ (Poll.ready (ok tt), y) → (y.stream ≡ x.stream)
  unfolding check_salt
  check_salt-keeps x y h = elim (Option-cases x.reader.salt) [
    | inl none_yet ↦ ground arith
    | inr (salt, is) ↦
        salt_checked-keeps (record x { reader = record x.reader { salt = none } })
          (c.check_nonce_replay x.context salt) y (ground arith)
  ]

  turn_read_data-falls :
      (n : ℕ) (x y : Connection e c)
      → turn_read_data e c n x ≡ (Poll.ready (ok none), y)
      → work y.reader.state y < 2 * total x
  unfolding turn_read_data poll_read_data
  turn_read_data-falls n x y = resume-eq-ok (poll_read_data e c n x) _ (λ _ x1 read rest.
      resume-eq-ok (poll_read_exact e c (n + e.tag_len) x) _
        (λ m x2 exact decrypted.
          let bounds = poll_read_exact_bounds (n + e.tag_len) x m x2 exact in
          elim (Bool-cases (m == 0)) [
            | inl eof ↦ absurd (ground arith)
            | inr some_bytes ↦
                resume-eq-ok (decrypt_buffer e c (n + e.tag_len) x2) _
                  (λ valid x3 decrypt checked.
                    let same = decrypt_buffer-keeps (n + e.tag_len) x2 x3 valid decrypt in
                    elim (Bool-cases valid) [
                      | inr broken ↦ absurd (ground arith)
                      | inl sound ↦
                          resume-eq-ok (check_salt e c x3) _
                            (λ _ x4 salt tail.
                              let same' = check_salt-keeps x3 x4 salt in ground arith)
                            (rw sound at checked)
                    ])
                  (rw some_bytes at decrypted)
          ])
        read)

  turn_buffered_data-falls :
      (remaining pos : ℕ) (x y : Connection e c)
      → turn_buffered_data e c remaining pos x ≡ (Poll.ready (ok none), y)
      → work y.reader.state y < 2 * length (incoming x.stream) + 1
  unfolding turn_buffered_data
  turn_buffered_data-falls remaining pos x y h = ground arith

  dispatch-falls :
      (remaining : ℕ) (s : DecryptReadState) (x y : Connection e c)
      → dispatch e c remaining s x ≡ (Poll.ready (ok none), y)
      → work y.reader.state y < work s x
  dispatch-falls remaining (DecryptReadState.wait_salt key) x y h = turn_wait_salt-falls key x y h
  dispatch-falls remaining DecryptReadState.read_length x y h = turn_read_length-falls x y h
  dispatch-falls remaining (DecryptReadState.read_data n) x y h = turn_read_data-falls n x y h
  dispatch-falls remaining (DecryptReadState.buffered_data pos) x y h =
      turn_buffered_data-falls remaining pos x y h

  after_turn-answers :
      (r : Poll (Result ProtocolError (Option (List ℕ))) × Connection e c)
      (again : Connection e c → Option (Answer e c))
      → ((y : Connection e c)
          → r ≡ (Poll.ready (ok none), y)
          → (a : Answer e c) × (again y ≡ some a))
      → (a : Answer e c) × (after_turn e c r again ≡ some a)
  after_turn-answers (Poll.pending, y) again k = (_, refl)
  after_turn-answers (Poll.ready (ok (some out)), y) again k = (_, refl)
  after_turn-answers (Poll.ready (ok none), y) again k = k y refl
  after_turn-answers (Poll.ready (err failure), y) again k = (_, refl)
  after_turn-answers (Poll.ready panic, y) again k = (_, refl)

  read_loop_answers :
      (fuel remaining : ℕ) (x : Connection e c)
      → work x.reader.state x < fuel
      → (a : Answer e c) × (read_loop e c fuel remaining x ≡ some a)
  unfolding read_loop turn
  read_loop_answers zero remaining x h = absurd (omega arith)
  read_loop_answers (suc fuel) remaining x h =
      after_turn-answers (turn e c remaining x) (read_loop e c fuel remaining) (λ y more.
        let falls = dispatch-falls remaining x.reader.state x y more in
        read_loop_answers fuel remaining y (omega arith))

  work-le : (s : DecryptReadState) (x : Connection e c) → work s x < enough_fuel e c x
  work-le (DecryptReadState.wait_salt key) x = omega arith
  work-le DecryptReadState.read_length x = omega arith
  work-le (DecryptReadState.read_data n) x = omega arith
  work-le (DecryptReadState.buffered_data pos) x = omega arith

  -- A poll of the reader comes to an end, in every state, over every stream and whatever the cipher and
  -- the check of nonces do.
  pub poll_read_decrypted_total :
      (remaining : ℕ) (x : Connection e c)
      → (a : Answer e c) × (poll_read_decrypted e c remaining x ≡ some a)
  unfolding poll_read_decrypted
  poll_read_decrypted_total remaining x =
      read_loop_answers (enough_fuel e c x) remaining x (work-le x.reader.state x)

-- ===== src/Aead2022/Reader/Ends/Bounds.antt =====
-- A read takes bytes, and so do the turns behind the header.
use mobile_android_obfuscati.Common.{
  ℕ, ◌+◌, ◌*◌, ◌≤◌, ◌<◌, ◌≡◌, ◌⊎◌, inl, inr, refl, arith, ◌==◌, Bool, Bool-cases, length-append,
  drop, length-take, length-drop, [], ◌∷◌, List, length, none,
}
use mobile_android_obfuscati.Common.{ok, err, panic}
use mobile_android_obfuscati.Aead.Async.{Poll, resume-eq-ok}
use mobile_android_obfuscati.Aead.Cipher.{Aead, NonceCheck}
use mobile_android_obfuscati.Aead.Transport.{incoming}
use mobile_android_obfuscati.Aead2022.Connection.{DecryptReadState, Connection}
use mobile_android_obfuscati.Aead.Reader.{fill}
use mobile_android_obfuscati.Aead.Transport.{ReadEvent, poll_read}
use mobile_android_obfuscati.Aead2022.Reader.{
  filled, poll_read_exact, decrypt_buffer, decrypt_length, poll_read_length, poll_read_data,
  turn_read_length, turn_read_data, turn_buffered_data,
}
use mobile_android_obfuscati.Aead.Reader.Fill.{Outcome, fill_bounds}

pub poll_read-less :
    (n : ℕ) (es : List ReadEvent) (bs : List ℕ) (rest : List ReadEvent)
    → poll_read n es ≡ (Poll.ready (ok bs), rest)
    → length bs + length (incoming rest) ≡ length (incoming es)
unfolding poll_read
poll_read-less n [] bs rest h = ground arith
poll_read-less n (ReadEvent.pending ∷ es) bs rest h = absurd (ground arith)
poll_read-less n (ReadEvent.failed k ∷ es) bs rest h = absurd (ground arith)
poll_read-less n (ReadEvent.arrived new ∷ es) bs rest h = ground (
  arith,
  length-append new (incoming es),
  length-append (drop n new) (incoming es),
  length-take n new,
  length-drop n new,
)

module _ {e : Aead} {c : NonceCheck} where
  abbrev pub total : Connection e c → ℕ
  total x = length x.reader.buffer + length (incoming x.stream)

  -- Data that is buffered is paid for; all other bytes take two turns each.
  abbrev pub work : DecryptReadState → Connection e c → ℕ
  work (DecryptReadState.read_header key) x = 2 * total x
  work DecryptReadState.read_length x = 2 * total x
  work (DecryptReadState.read_data n) x = 2 * total x
  work (DecryptReadState.buffered_data pos) x = 2 * length (incoming x.stream) + 1

  filled_bounds :
      (size : ℕ) (x : Connection e c) (r : Outcome) (n : ℕ) (y : Connection e c)
      → (length r.1 + length (incoming r.2) ≤ total x)
        × ((n : ℕ) → r.0 ≡ Poll.ready (ok n) → (n ≡ 0) ⊎ ((n ≡ size) × (size ≤ length r.1)))
      → filled e c x r ≡ (Poll.ready (ok n), y)
      → (total y ≤ total x) × ((n ≡ 0) ⊎ ((n ≡ size) × (size ≤ length y.reader.buffer)))
  filled_bounds size x (Poll.pending, buffer, es) n y h eq = absurd (ground arith)
  filled_bounds size x (Poll.ready (ok m), buffer, es) n y h eq = ground (arith, h.1 m refl)
  filled_bounds size x (Poll.ready (err k), buffer, es) n y h eq = absurd (ground arith)
  filled_bounds size x (Poll.ready panic, buffer, es) n y h eq = absurd (ground arith)

  pub poll_read_exact_bounds :
      (size : ℕ) (x : Connection e c) (n : ℕ) (y : Connection e c)
      → poll_read_exact e c size x ≡ (Poll.ready (ok n), y)
      → (0 < size)
        × (total y ≤ total x)
        × ((n ≡ 0) ⊎ ((n ≡ size) × (size ≤ length y.reader.buffer)))
  unfolding poll_read_exact
  poll_read_exact_bounds size x n y h = elim (Bool-cases (size == 0)) [
    | inl empty ↦ absurd (ground arith)
    | inr wanted ↦
        let (less, some_bytes) =
          filled_bounds size x (fill size x.reader.buffer x.stream) n y
            (fill_bounds size x.reader.buffer x.stream) (ground arith) in
        (ground arith, less, some_bytes)
  ]

  decrypt_buffer-keeps :
      (len : ℕ) (x y : Connection e c) (valid : Bool)
      → decrypt_buffer e c len x ≡ (Poll.ready (ok valid), y)
      → (y.stream ≡ x.stream) × (y.reader.state ≡ x.reader.state)
  unfolding decrypt_buffer
  decrypt_buffer-keeps len x y valid h = ground arith

  decrypt_length-keeps :
      (len : ℕ) (x y : Connection e c) (plen : ℕ)
      → decrypt_length e c len x ≡ (Poll.ready (ok plen), y)
      → y.stream ≡ x.stream
  unfolding decrypt_length
  decrypt_length-keeps len x y plen =
      resume-eq-ok (decrypt_buffer e c len x) _ (λ valid x1 decrypted checked.
        let same = decrypt_buffer-keeps len x x1 valid decrypted in ground arith)

  pub turn_read_length-falls :
      (x y : Connection e c)
      → turn_read_length e c x ≡ (Poll.ready (ok none), y)
      → work y.reader.state y < 2 * total x
  unfolding turn_read_length poll_read_length decrypt_length
  turn_read_length-falls x y = resume-eq-ok (poll_read_length e c x) _ (λ length x1 lengths rest.
      resume-eq-ok (poll_read_exact e c (2 + e.tag_len) x) _
        (λ n x2 exact decrypted.
          let bounds = poll_read_exact_bounds (2 + e.tag_len) x n x2 exact in
          elim (Bool-cases (n == 0)) [
            | inl eof ↦ absurd (ground arith)
            | inr some_bytes ↦
                resume-eq-ok (decrypt_length e c (2 + e.tag_len) x2) _
                  (λ k x3 decrypt tail.
                    let same = decrypt_length-keeps (2 + e.tag_len) x2 x3 k decrypt in ground arith)
                  (rw some_bytes at decrypted)
          ])
        lengths)

  pub turn_read_data-falls :
      (n : ℕ) (x y : Connection e c)
      → turn_read_data e c n x ≡ (Poll.ready (ok none), y)
      → work y.reader.state y < 2 * total x
  unfolding turn_read_data poll_read_data
  turn_read_data-falls n x y = resume-eq-ok (poll_read_data e c n x) _ (λ _ x1 read rest.
      resume-eq-ok (poll_read_exact e c (n + e.tag_len) x) _
        (λ m x2 exact decrypted.
          let bounds = poll_read_exact_bounds (n + e.tag_len) x m x2 exact in
          elim (Bool-cases (m == 0)) [
            | inl eof ↦ absurd (ground arith)
            | inr some_bytes ↦
                resume-eq-ok (decrypt_buffer e c (n + e.tag_len) x2) _
                  (λ valid x3 decrypt checked.
                    let same = decrypt_buffer-keeps (n + e.tag_len) x2 x3 valid decrypt in
                    elim (Bool-cases valid) [
                      | inr broken ↦ absurd (ground arith)
                      | inl sound ↦ ground arith
                    ])
                  (rw some_bytes at decrypted)
          ])
        read)

  pub turn_buffered_data-falls :
      (remaining pos : ℕ) (x y : Connection e c)
      → turn_buffered_data e c remaining pos x ≡ (Poll.ready (ok none), y)
      → work y.reader.state y < 2 * length (incoming x.stream) + 1
  unfolding turn_buffered_data
  turn_buffered_data-falls remaining pos x y h = ground arith

-- ===== src/Aead/Reader/Keeps.antt =====
-- What a read and a decryption leave of a connection.
use mathlib.Core.List.{append_assoc}
use mobile_android_obfuscati.Common.{
  ℕ, suc, ◌-◌, ◌≤◌, ◌≡◌, ◌⊎◌, inl, inr, refl, ◌∙◌, arith, ◌==◌, ltb, leb, Bool, false, Bool-cases,
  Option-cases, List, [], ◌∷◌, ◌++◌, length, take, drop, length-append, length-take,
  take-append-drop, some,
}
use mobile_android_obfuscati.Common.{ok, err, panic}
use mobile_android_obfuscati.Aead.Async.{Poll}
use mobile_android_obfuscati.Aead.Cipher.{Aead, NonceCheck}
use mobile_android_obfuscati.Aead.Transport.{ReadEvent, incoming}
use mobile_android_obfuscati.Aead.Reader.{Connection, filled, fill, poll_read_exact, decrypt_buffer}
use mobile_android_obfuscati.Aead.Reader.Fill.{Outcome}

ltb-eq-false_of : (n m : ℕ) → ltb n m ≡ false → m ≤ n
ltb-eq-false_of n m h = ground arith

-- The loop keeps all bytes, and does not fill the buffer above its size.
fill_keeps :
    (size : ℕ) (buffer : List ℕ) (es : List ReadEvent)
    → length buffer ≤ size
    → ((fill size buffer es).1 ++ incoming (fill size buffer es).2 ≡ buffer ++ incoming es)
      × (length (fill size buffer es).1 ≤ size)
unfolding fill
fill_keeps size buffer [] le = (ground arith, ground arith)
fill_keeps size buffer (ReadEvent.pending ∷ es) le = (ground arith, ground arith)
fill_keeps size buffer (ReadEvent.failed k ∷ es) le = (ground arith, ground arith)
fill_keeps size buffer (ReadEvent.arrived [] ∷ es) le = (ground arith, ground arith)
fill_keeps size buffer (ReadEvent.arrived (b ∷ bs) ∷ es) le =
    let n = size - length buffer in
    let m = suc (length bs) in
    elim (Bool-cases (leb size (length buffer))) [
      | inl enough ↦ rw enough (refl, le)
      | inr short ↦ elim (Bool-cases (ltb n m)) [
        | inl some_left ↦
            rw (short, some_left)
              (
                rw
                    (
                      append_assoc buffer (take n (b ∷ bs)) (drop n (b ∷ bs) ++ incoming es),
                      ← append_assoc (take n (b ∷ bs)) (drop n (b ∷ bs)) (incoming es),
                      take-append-drop n (b ∷ bs),
                    )
                    refl,
                omega (arith, length-append buffer (take n (b ∷ bs)), length-take n (b ∷ bs)),
              )
        | inr all ↦
            let some_bytes : (m == 0) ≡ false = ground arith in
            let fits = ltb-eq-false_of n m all in
            let (same, le') =
              fill_keeps size (buffer ++ b ∷ bs) es
                (omega (arith, length-append buffer (b ∷ bs))) in
            rw (short, all, some_bytes) (same ∙ append_assoc buffer (b ∷ bs) (incoming es), le')
      ]
    ]

module _ {e : Aead} {c : NonceCheck} where
  -- A reader that has read keeps its state, its salt and its context.
  abbrev pub Keeps : Connection e c → Connection e c → Type 0
  Keeps x y =
      (y.reader.state ≡ x.reader.state) × (y.reader.salt ≡ x.reader.salt) × (y.context ≡ x.context)

  filled-Keeps : (x : Connection e c) (o : Outcome) → Keeps x (filled e c x o).1
  filled-Keeps x (Poll.pending, b, es) = (refl, refl, refl)
  filled-Keeps x (Poll.ready (ok n), b, es) = (refl, refl, refl)
  filled-Keeps x (Poll.ready (err k), b, es) = (refl, refl, refl)
  filled-Keeps x (Poll.ready panic, b, es) = (refl, refl, refl)

  pub poll_read_exact-Keeps :
      (size : ℕ) (x : Connection e c) → Keeps x (poll_read_exact e c size x).1
  unfolding poll_read_exact
  poll_read_exact-Keeps size x = elim (Bool-cases (size == 0)) [
    | inl empty ↦ rw empty (refl, refl, refl)
    | inr some_bytes ↦ rw some_bytes (filled-Keeps x (fill size x.reader.buffer x.stream))
  ]

  -- The decryption panics or goes on.
  pub decrypt_buffer_cases :
      (len : ℕ) (x : Connection e c)
      → (decrypt_buffer e c len x ≡ (Poll.ready panic, x))
        ⊎ ((valid : Bool) × (y : Connection e c) × (decrypt_buffer e c len x
              ≡ (Poll.ready (ok valid), y))
            × Keeps x y)
  unfolding decrypt_buffer
  decrypt_buffer_cases len x = elim (Option-cases x.reader.cipher) [
    | inl no_cipher ↦ inl (rw no_cipher refl)
    | inr (cipher, has) ↦
        let (valid, plain, next) = e.decrypt_packet cipher (take len x.reader.buffer) in
        let y = record x {
          reader = record x.reader {
            cipher = some next;
            buffer = plain ++ drop len x.reader.buffer;
          };
        } in
        inr (valid, y, rw has refl, (refl, refl, refl))
  ]

  -- The bytes are kept, and the buffer is not filled above the size.
  abbrev pub Holds : ℕ → Connection e c → Connection e c → Type 0
  Holds size x y =
      (y.reader.buffer ++ incoming y.stream ≡ x.reader.buffer ++ incoming x.stream)
      × (length y.reader.buffer ≤ size)

  filled-Holds :
      (size : ℕ) (x : Connection e c) (o : Outcome)
      → (o.1 ++ incoming o.2 ≡ x.reader.buffer ++ incoming x.stream)
      → length o.1 ≤ size
      → length x.reader.buffer ≤ size
      → Holds size x (filled e c x o).1
  filled-Holds size x (Poll.pending, b, es) same le le' = (same, le)
  filled-Holds size x (Poll.ready (ok n), b, es) same le le' = (same, le)
  filled-Holds size x (Poll.ready (err k), b, es) same le le' = (same, le)
  filled-Holds size x (Poll.ready panic, b, es) same le le' = (refl, le')

  pub poll_read_exact-Holds :
      (size : ℕ) (x : Connection e c)
      → length x.reader.buffer ≤ size
      → Holds size x (poll_read_exact e c size x).1
  unfolding poll_read_exact
  poll_read_exact-Holds size x le = elim (Bool-cases (size == 0)) [
    | inl empty ↦ rw empty (refl, le)
    | inr some_bytes ↦
        let (same, le') = fill_keeps size x.reader.buffer x.stream le in
        rw some_bytes (filled-Holds size x (fill size x.reader.buffer x.stream) same le' le)
  ]

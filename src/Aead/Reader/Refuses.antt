-- ===== src/Aead/Reader/Refuses.antt =====
-- A reader whose salt the context does not accept.
use mobile_android_obfuscati.Common.{
  ℕ, ◌+◌, ◌≤◌, ◌≡◌, inl, inr, refl, sym, subst, ap, ◌∙◌, arith, ◌==◌, ltb, true, false, Bool-cases,
  List, [], ◌++◌, length, take, get_or, append_inj, Option, none, some,
}
use mobile_android_obfuscati.Common.{Result, ok, err, panic, IoErrorKind}
use mobile_android_obfuscati.Common.Bytes.{from_be_bytes}
use mobile_android_obfuscati.Aead.Async.{Poll}
use mobile_android_obfuscati.Aead.Cipher.{Aead, NonceCheck}
use mobile_android_obfuscati.Aead.Transport.{incoming}
use mobile_android_obfuscati.Aead.Reader.{
  max_packet_size, ProtocolError, DecryptReadState, Connection, poll_read_exact, poll_read_salt,
  decrypt_length, poll_read_length, check_salt, salt_checked, poll_read_data, turn_wait_salt,
  turn_read_length, turn_read_data, dispatch, turn,
}
use mobile_android_obfuscati.Aead.Reader.Ends.{poll_read_exact_bounds}
use mobile_android_obfuscati.Aead.Reader.Steps.{take_all}
use mobile_android_obfuscati.Aead.Reader.Keeps.{
  Keeps, poll_read_exact-Keeps, decrypt_buffer_cases, Holds, poll_read_exact-Holds,
}

module _ {e : Aead} {c : NonceCheck} where
  -- The salt is still to come, or is there and not yet checked.
  pub data Refused (salt : List ℕ) (k : IoErrorKind) (x : Connection e c) : Type 0 where
    unsalted :
        (key rest : List ℕ)
        → x.reader.state ≡ DecryptReadState.wait_salt key
        → length salt ≡ e.salt_len
        → length x.reader.buffer ≤ e.salt_len
        → x.reader.buffer ++ incoming x.stream ≡ salt ++ rest
        → (c.check_nonce_replay x.context salt).0 ≡ err k
        → Refused salt k x
    at_length :
        x.reader.state ≡ DecryptReadState.read_length
        → x.reader.salt ≡ some salt
        → (c.check_nonce_replay x.context salt).0 ≡ err k
        → Refused salt k x
    at_data :
        (n : ℕ)
        → x.reader.state ≡ DecryptReadState.read_data n
        → x.reader.salt ≡ some salt
        → (c.check_nonce_replay x.context salt).0 ≡ err k
        → Refused salt k x

  -- What a turn of such a reader may come to.
  pub data Held (salt : List ℕ) (k : IoErrorKind)
      (r : Poll (Result ProtocolError (Option (List ℕ))) × Connection e c) : Type 0 where
    waits : r.0 ≡ Poll.pending → Refused salt k r.1 → Held salt k r
    goes : r.0 ≡ Poll.ready (ok none) → Refused salt k r.1 → Held salt k r
    ends : r.0 ≡ Poll.ready (ok (some [])) → Refused salt k r.1 → Held salt k r
    fails : (failure : ProtocolError) → r.0 ≡ Poll.ready (err failure) → Held salt k r
    panics : r.0 ≡ Poll.ready panic → Held salt k r

  -- The check of the salt fails after the data is decrypted.
  check_salt-refused :
      (x : Connection e c) (salt : List ℕ) (k : IoErrorKind)
      → x.reader.salt ≡ some salt
      → (c.check_nonce_replay x.context salt).0 ≡ err k
      → (y : Connection e c) × (check_salt e c x ≡ (Poll.ready (err (ProtocolError.io_error k)), y))
  unfolding check_salt
  check_salt-refused x salt k has refused = (
    record x {
      reader = record x.reader { salt = none };
      context = (c.check_nonce_replay x.context salt).1;
    },
    rw has (
        ap
          (λ r.
            salt_checked e c (record x { reader = record x.reader { salt = none } })
              (r, (c.check_nonce_replay x.context salt).1))
          refused),
  )

  abbrev Refuses : List ℕ → IoErrorKind → Connection e c → Type 0
  Refuses salt k x = (x.reader.salt ≡ some salt) × ((c.check_nonce_replay x.context salt).0 ≡ err k)

  Refuses-Keeps :
      (salt : List ℕ) (k : IoErrorKind) (x y : Connection e c)
      → Keeps x y
      → Refuses salt k x
      → Refuses salt k y
  Refuses-Keeps salt k x y keeps (has, refused) =
      (keeps.1 ∙ has, ap (λ z. (c.check_nonce_replay z salt).0) keeps.2 ∙ refused)

  -- The first step of a turn has come to `r`.
  turn_read_data-Held :
      (salt : List ℕ) (k : IoErrorKind) (n : ℕ) (x : Connection e c)
      (r : Poll (Result ProtocolError ℕ) × Connection e c)
      → poll_read_exact e c (n + e.tag_len) x ≡ r
      → Keeps x r.1
      → x.reader.state ≡ DecryptReadState.read_data n
      → Refuses salt k x
      → Held salt k (turn_read_data e c n x)
  unfolding turn_read_data poll_read_data
  turn_read_data-Held salt k n x (Poll.pending, y) eq keeps is refuses =
      let (has, refused) = Refuses-Keeps salt k x y keeps refuses in
      rw eq (Held.waits refl (Refused.at_data n (keeps.0 ∙ is) has refused))
  turn_read_data-Held salt k n x (Poll.ready (err failure), y) eq keeps is refuses =
      rw eq (Held.fails failure refl)
  turn_read_data-Held salt k n x (Poll.ready panic, y) eq keeps is refuses =
      rw eq (Held.panics refl)
  turn_read_data-Held salt k n x (Poll.ready (ok m), y) eq keeps is refuses =
      elim (Bool-cases (m == 0)) [
        | inl eof ↦
            rw (eq, eof) (Held.fails (ProtocolError.io_error IoErrorKind.unexpected_eof) refl)
        | inr some_bytes ↦ elim (decrypt_buffer_cases (n + e.tag_len) y) [
          | inl no_cipher ↦ rw (eq, some_bytes, no_cipher) (Held.panics refl)
          | inr (false, z, opens, keeps') ↦
              rw (eq, some_bytes, opens) (Held.fails ProtocolError.decrypt_data_error refl)
          | inr (true, z, opens, keeps') ↦
              let (has, refused) =
                Refuses-Keeps salt k y z keeps' (Refuses-Keeps salt k x y keeps refuses) in
              let (w, checked) = check_salt-refused z salt k has refused in
              rw (eq, some_bytes, opens, checked) (Held.fails (ProtocolError.io_error k) refl)
        ]
      ]

  turn_read_length-Held :
      (salt : List ℕ) (k : IoErrorKind) (x : Connection e c)
      (r : Poll (Result ProtocolError ℕ) × Connection e c)
      → poll_read_exact e c (2 + e.tag_len) x ≡ r
      → Keeps x r.1
      → x.reader.state ≡ DecryptReadState.read_length
      → Refuses salt k x
      → Held salt k (turn_read_length e c x)
  unfolding turn_read_length poll_read_length decrypt_length
  turn_read_length-Held salt k x (Poll.pending, y) eq keeps is refuses =
      let (has, refused) = Refuses-Keeps salt k x y keeps refuses in
      rw eq (Held.waits refl (Refused.at_length (keeps.0 ∙ is) has refused))
  turn_read_length-Held salt k x (Poll.ready (err failure), y) eq keeps is refuses =
      rw eq (Held.fails failure refl)
  turn_read_length-Held salt k x (Poll.ready panic, y) eq keeps is refuses =
      rw eq (Held.panics refl)
  turn_read_length-Held salt k x (Poll.ready (ok m), y) eq keeps is refuses =
      elim (Bool-cases (m == 0)) [
        | inl eof ↦
            let (has, refused) = Refuses-Keeps salt k x y keeps refuses in
            rw (eq, eof) (Held.ends refl (Refused.at_length (keeps.0 ∙ is) has refused))
        | inr some_bytes ↦ elim (decrypt_buffer_cases (2 + e.tag_len) y) [
          | inl no_cipher ↦ rw (eq, some_bytes, no_cipher) (Held.panics refl)
          | inr (false, z, opens, keeps') ↦
              rw (eq, some_bytes, opens) (Held.fails ProtocolError.decrypt_length_error refl)
          | inr (true, z, opens, keeps') ↦
              let (has, refused) =
                Refuses-Keeps salt k y z keeps' (Refuses-Keeps salt k x y keeps refuses) in
              let plen = from_be_bytes (get_or z.reader.buffer 0 0) (get_or z.reader.buffer 1 0) in
              elim (Bool-cases (ltb max_packet_size plen)) [
                | inl long ↦
                    rw (eq, some_bytes, opens, long)
                      (Held.fails (ProtocolError.data_too_long plen) refl)
                | inr fits ↦
                    rw (eq, some_bytes, opens, fits)
                      (Held.goes refl (Refused.at_data plen refl has refused))
              ]
        ]
      ]

  turn_wait_salt-Held :
      (salt : List ℕ) (k : IoErrorKind) (key rest : List ℕ) (x : Connection e c)
      (r : Poll (Result ProtocolError ℕ) × Connection e c)
      → poll_read_exact e c e.salt_len x ≡ r
      → Keeps x r.1
      → Holds e.salt_len x r.1
      → x.reader.state ≡ DecryptReadState.wait_salt key
      → length salt ≡ e.salt_len
      → x.reader.buffer ++ incoming x.stream ≡ salt ++ rest
      → (c.check_nonce_replay x.context salt).0 ≡ err k
      → Held salt k (turn_wait_salt e c key x)
  unfolding turn_wait_salt poll_read_salt
  turn_wait_salt-Held salt k key rest x (Poll.pending, y) eq keeps holds is len comes refused =
      rw eq (
        Held.waits refl (
          Refused.unsalted key rest (keeps.0 ∙ is) len holds.1 (holds.0 ∙ comes)
            (ap (λ z. (c.check_nonce_replay z salt).0) keeps.2 ∙ refused)))
  turn_wait_salt-Held salt k key rest x (Poll.ready (err failure), y) eq keeps holds is len comes
        refused =
      rw eq (Held.fails failure refl)
  turn_wait_salt-Held salt k key rest x (Poll.ready panic, y) eq keeps holds is len comes refused =
      rw eq (Held.panics refl)
  turn_wait_salt-Held salt k key rest x (Poll.ready (ok n), y) eq keeps holds is len comes refused =
      let (pos, _, read) = poll_read_exact_bounds e.salt_len x n y eq in
      elim read [
        | inl eof ↦
            let short : ltb n e.salt_len ≡ true = ground arith in
            rw (eq, short) (Held.fails (ProtocolError.io_error IoErrorKind.unexpected_eof) refl)
        | inr (all, enough) ↦
            let full : ltb n e.salt_len ≡ false = ground arith in
            let (front, _) =
              append_inj y.reader.buffer salt (omega (arith, holds.1)) (holds.0 ∙ comes) in
            let whole : take e.salt_len y.reader.buffer ≡ salt =
              take_all e.salt_len y.reader.buffer holds.1 ∙ front in
            rw (eq, full)
              (Held.goes refl (
                Refused.at_length refl (ap some whole)
                  (ap (λ z. (c.check_nonce_replay z salt).0) keeps.2 ∙ refused)))
      ]

  -- A turn of a reader whose salt is refused delivers nothing.
  pub turn-Held :
      (remaining : ℕ) (salt : List ℕ) (k : IoErrorKind) (x : Connection e c)
      → Refused salt k x
      → Held salt k (turn e c remaining x)
  unfolding turn
  turn-Held remaining salt k x (Refused.unsalted key rest is len le comes refused) =
      subst (λ state. Held salt k (dispatch e c remaining state x)) (sym is)
        (turn_wait_salt-Held salt k key rest x (poll_read_exact e c e.salt_len x) refl
          (poll_read_exact-Keeps e.salt_len x) (poll_read_exact-Holds e.salt_len x le) is len comes
          refused)
  turn-Held remaining salt k x (Refused.at_length is has refused) =
      subst (λ state. Held salt k (dispatch e c remaining state x)) (sym is)
        (turn_read_length-Held salt k x (poll_read_exact e c (2 + e.tag_len) x) refl
          (poll_read_exact-Keeps (2 + e.tag_len) x) is (has, refused))
  turn-Held remaining salt k x (Refused.at_data n is has refused) =
      subst (λ state. Held salt k (dispatch e c remaining state x)) (sym is)
        (turn_read_data-Held salt k n x (poll_read_exact e c (n + e.tag_len) x) refl
          (poll_read_exact-Keeps (n + e.tag_len) x) is (has, refused))

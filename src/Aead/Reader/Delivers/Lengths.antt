-- ===== src/Aead/Reader/Delivers/Lengths.antt =====
-- The turns that read the salt and the length of a chunk.
use mathlib.Core.List.{append_assoc}
use mobile_android_obfuscati.Common.{
  ℕ, ◌+◌, ◌≤◌, ◌<◌, ◌≡◌, refl, ap, ◌∙◌, arith, ◌==◌, ltb, false, List, [], ◌∷◌, ◌++◌, length, take,
  get_or, length-append, append_inj, none, some,
}
use mobile_android_obfuscati.Common.{ok}
use mobile_android_obfuscati.Common.Bytes.{be_bytes, from_be_bytes}
use mobile_android_obfuscati.Aead.Async.{Poll}
use mobile_android_obfuscati.Aead.Cipher.{Aead, NonceCheck}
use mobile_android_obfuscati.Aead.Transport.{ReadEvent, incoming, pendings}
use mobile_android_obfuscati.Aead.Wire.{wire, concat}
use mobile_android_obfuscati.Aead.Reader.{
  max_packet_size, DecryptReadState, Connection, poll_read_exact, poll_read_salt, decrypt_length,
  poll_read_length, turn_wait_salt, turn_read_length,
}
use mobile_android_obfuscati.Aead.Reader.Steps.{
  take_all, with_fill, Filling, decrypt_buffer-encrypted,
}
use mobile_android_obfuscati.Aead.Reader.Expects.{AreShort, Accepts, Expects, Turn}

pub encoded_length :
    (plain : List ℕ) (n : ℕ)
    → take 2 plain ≡ be_bytes n
    → from_be_bytes (get_or plain 0 0) (get_or plain 1 0) ≡ n
encoded_length [] n h = absurd (omega (arith, ap length h))
encoded_length (a ∷ []) n h = absurd (omega (arith, ap length h))
encoded_length (a ∷ b ∷ rest) n h =
    let high = ap (λ l. get_or l 0 0) h in let low = ap (λ l. get_or l 1 0) h in omega arith

module _ {e : Aead} {c : NonceCheck} where
  pub turn_wait_salt_lem :
      (remaining : ℕ) (x : Connection e c) (text key salt : List ℕ) (ps : List (List ℕ))
      → x.reader.state ≡ DecryptReadState.wait_salt key
      → 0 < e.salt_len
      → length salt ≡ e.salt_len
      → length x.reader.buffer ≤ e.salt_len
      → x.reader.buffer ++ incoming x.stream ≡ salt ++ wire e (e.new key salt) ps
      → Accepts x (some salt)
      → AreShort ps
      → text ≡ concat ps
      → Filling e.salt_len x
      → Turn remaining (pendings x.stream) text (turn_wait_salt e c key x)
  unfolding turn_wait_salt poll_read_salt
  turn_wait_salt_lem remaining x text key salt ps is pos len le comes new short carries
        (Filling.waits b es eq same le' alive less) =
      rw eq (
        Turn.waits refl (Expects.salted key salt ps is pos len le' (same ∙ comes) new short carries)
          alive less)
  turn_wait_salt_lem remaining x text key salt ps is pos len le comes new short carries
        (Filling.fills b es eq same le' alive less) =
      let (front, back) = append_inj b salt (omega arith) (same ∙ comes) in
      let whole : take e.salt_len b ≡ salt = take_all e.salt_len b (omega arith) ∙ front in
      let enough : ltb e.salt_len e.salt_len ≡ false = ground arith in
      rw (eq, enough, whole)
        (Turn.goes refl
          (Expects.at_length (e.new key salt) ps refl refl (omega arith) back new short carries)
          alive less)
  turn_wait_salt_lem remaining x text key salt ps is pos len le comes new short carries
        (Filling.ends eq none_left) =
      absurd (omega (arith, ap length comes, length-append salt (wire e (e.new key salt) ps)))

  turn_read_length_eof :
      (x y : Connection e c)
      → poll_read_exact e c (2 + e.tag_len) x ≡ (Poll.ready (ok 0), y)
      → turn_read_length e c x ≡ (Poll.ready (ok (some [])), y)
  unfolding turn_read_length poll_read_length
  turn_read_length_eof x y eq = rw eq

  turn_read_length_chunk :
      (x : Connection e c) (s : e.Cipher) (p b : List ℕ) (es : List ReadEvent)
      → x.reader.cipher ≡ some s
      → length p ≤ max_packet_size
      → b ≡ (e.encrypt_packet s (be_bytes (length p))).0
      → poll_read_exact e c (2 + e.tag_len) x ≡ (Poll.ready (ok (2 + e.tag_len)), with_fill x b es)
      → turn_read_length e c x ≡ (
        Poll.ready (ok none),
        record x {
          reader = record x.reader {
            state = DecryptReadState.read_data (length p);
            cipher = some (e.encrypt_packet s (be_bytes (length p))).1;
            buffer = [];
          };
          stream = es;
        },
      )
  unfolding turn_read_length poll_read_length decrypt_length
  turn_read_length_chunk x s p b es has short holds eq =
      let (plain, decrypted, starts) =
        decrypt_buffer-encrypted (with_fill x b es) s (be_bytes (length p)) (2 + e.tag_len) has
          holds refl in
      let some_bytes : (2 + e.tag_len == 0) ≡ false = ground arith in
      let small : ltb max_packet_size (length p) ≡ false = ground arith in
      rw (eq, some_bytes, decrypted, encoded_length plain (length p) starts, small)

  pub turn_read_length_lem :
      (remaining : ℕ) (x : Connection e c) (text : List ℕ) (s : e.Cipher) (ps : List (List ℕ))
      → x.reader.state ≡ DecryptReadState.read_length
      → x.reader.cipher ≡ some s
      → x.reader.buffer ++ incoming x.stream ≡ wire e s ps
      → Accepts x x.reader.salt
      → AreShort ps
      → text ≡ concat ps
      → Filling (2 + e.tag_len) x
      → Turn remaining (pendings x.stream) text (turn_read_length e c x)
  turn_read_length_lem remaining x text s ps is has comes new short carries
        (Filling.waits b es eq same le alive less) =
      let waits : turn_read_length e c x ≡ (Poll.pending, with_fill x b es) =
        unfold turn_read_length poll_read_length in rw eq in
      rw waits (
        Turn.waits refl (Expects.at_length s ps is has le (same ∙ comes) new short carries) alive
          less)
  turn_read_length_lem remaining x text s [] is has comes new short carries
        (Filling.fills b es eq same le alive less) =
      absurd (omega (arith, ap length (same ∙ comes), length-append b (incoming es)))
  turn_read_length_lem remaining x text s (p ∷ ps) is has comes new short carries
        (Filling.fills b es eq same le alive less) =
      let m = e.encrypt_packet s (be_bytes (length p)) in
      let n = e.encrypt_packet m.1 p in
      let split = append_assoc m.0 n.0 (wire e n.1 ps) in
      let (front, back) =
        append_inj b m.0 (omega (arith, e.length-encrypt_packet s (be_bytes (length p))))
          (same ∙ comes ∙ split) in
      rw (turn_read_length_chunk x s p b es has short.0 front eq) (
        Turn.goes refl (Expects.at_data m.1 p ps refl refl (omega arith) back new short.1 carries)
          alive less)
  turn_read_length_lem remaining x text s [] is has comes new short carries
        (Filling.ends eq none_left) =
      rw (turn_read_length_eof x (with_fill x [] []) (eq comes), carries)
        (Turn.delivers [] [] refl (Expects.at_length s [] is has (omega arith) refl new tt refl) tt
          (omega arith) refl (omega arith) (λ _ some_text. some_text))
  turn_read_length_lem remaining x text s (p ∷ ps) is has comes new short carries
        (Filling.ends eq none_left) =
      let m = e.encrypt_packet s (be_bytes (length p)) in
      let n = e.encrypt_packet m.1 p in
      absurd (
        omega (
          arith,
          ap length comes,
          length-append (m.0 ++ n.0) (wire e n.1 ps),
          length-append m.0 n.0,
          e.length-encrypt_packet s (be_bytes (length p)),
        ))

-- ===== src/Aead2022/Reader/Delivers/Chunks.antt =====
-- The turns that read the length and the data of a chunk.
use mathlib.Core.List.{append_assoc}
use mobile_android_obfuscati.Common.{
  ℕ, ◌+◌, ◌%◌, ◌^◌, ◌≡◌, refl, ap, ◌∙◌, arith, ◌==◌, false, List, [], ◌∷◌, ◌++◌, length,
  length-append, append_inj, none, some,
}
use mobile_android_obfuscati.Common.{ok}
use mobile_android_obfuscati.Common.Bytes.{be_bytes}
use mobile_android_obfuscati.Aead.Async.{Poll}
use mobile_android_obfuscati.Aead.Cipher.{Aead, NonceCheck}
use mobile_android_obfuscati.Aead.Transport.{ReadEvent, incoming, pendings}
use mobile_android_obfuscati.Aead.Wire.{wire, concat}
use mobile_android_obfuscati.Aead.Reader.Delivers.Lengths.{encoded_length}
use mobile_android_obfuscati.Aead2022.Connection.{DecryptReadState, Connection}
use mobile_android_obfuscati.Aead2022.Identity.{Primitives}
use mobile_android_obfuscati.Aead2022.Reader.{
  poll_read_exact, decrypt_length, poll_read_length, poll_read_data, turn_read_length,
  turn_read_data,
}
use mobile_android_obfuscati.Aead2022.Reader.Steps.{with_fill, Filling, decrypt_buffer-encrypted}
use mobile_android_obfuscati.Aead2022.Reader.Expects.{Expects, Turn}

module _ {e : Aead} {c : NonceCheck} (b : Primitives) (time : ℕ) where
  turn_read_length_eof :
      (x y : Connection e c)
      → poll_read_exact e c (2 + e.tag_len) x ≡ (Poll.ready (ok 0), y)
      → turn_read_length e c x ≡ (Poll.ready (ok (some [])), y)
  unfolding turn_read_length poll_read_length
  turn_read_length_eof x y eq = rw eq

  turn_read_length_chunk :
      (x : Connection e c) (s : e.Cipher) (p b : List ℕ) (es : List ReadEvent)
      → x.reader.cipher ≡ some s
      → b ≡ (e.encrypt_packet s (be_bytes (length p))).0
      → poll_read_exact e c (2 + e.tag_len) x ≡ (Poll.ready (ok (2 + e.tag_len)), with_fill x b es)
      → turn_read_length e c x ≡ (
        Poll.ready (ok none),
        record x {
          reader = record x.reader {
            state = DecryptReadState.read_data (length p);
            cipher = some (e.encrypt_packet s (be_bytes (length p))).1;
            buffer = [];
          };
          stream = es;
        },
      )
  unfolding turn_read_length poll_read_length decrypt_length
  turn_read_length_chunk x s p b es has holds eq =
      let (plain, decrypted, starts) =
        decrypt_buffer-encrypted (with_fill x b es) s (be_bytes (length p)) (2 + e.tag_len) has
          holds refl in
      let some_bytes : (2 + e.tag_len == 0) ≡ false = ground arith in
      rw (eq, some_bytes, decrypted, encoded_length plain (length p) starts)

  pub turn_read_length_lem :
      (remaining : ℕ) (x : Connection e c) (text : List ℕ) (s : e.Cipher) (ps : List (List ℕ))
      → x.reader.state ≡ DecryptReadState.read_length
      → x.reader.cipher ≡ some s
      → x.reader.buffer ++ incoming x.stream ≡ wire e s ps
      → text ≡ concat ps
      → Filling (2 + e.tag_len) x
      → Turn b time remaining (pendings x.stream) text (turn_read_length e c x)
  turn_read_length_lem remaining x text s ps is has comes carries
        (Filling.waits b es eq same le alive less) =
      let waits : turn_read_length e c x ≡ (Poll.pending, with_fill x b es) =
        unfold turn_read_length poll_read_length in rw eq in
      rw waits
        (Turn.waits refl (Expects.at_length s ps is has le (same ∙ comes) carries) alive less)
  turn_read_length_lem remaining x text s [] is has comes carries
        (Filling.fills b es eq same le alive less) =
      absurd (omega (arith, ap length (same ∙ comes), length-append b (incoming es)))
  turn_read_length_lem remaining x text s (p ∷ ps) is has comes carries
        (Filling.fills b es eq same le alive less) =
      let m = e.encrypt_packet s (be_bytes (length p)) in
      let n = e.encrypt_packet m.1 p in
      let split = append_assoc m.0 n.0 (wire e n.1 ps) in
      let (front, back) =
        append_inj b m.0 (omega (arith, e.length-encrypt_packet s (be_bytes (length p))))
          (same ∙ comes ∙ split) in
      rw (turn_read_length_chunk x s p b es has front eq)
        (Turn.goes refl (Expects.at_data m.1 p ps refl refl (omega arith) back carries) alive less)
  turn_read_length_lem remaining x text s [] is has comes carries (Filling.ends eq none_left) =
      rw (turn_read_length_eof x (with_fill x [] []) (eq comes), carries)
        (Turn.delivers [] [] refl (Expects.at_length s [] is has (omega arith) refl refl) tt
          (omega arith) refl (omega arith) (λ _ some_text. some_text))
  turn_read_length_lem remaining x text s (p ∷ ps) is has comes carries
        (Filling.ends eq none_left) =
      let m = e.encrypt_packet s (be_bytes (length p)) in
      let n = e.encrypt_packet m.1 p in
      absurd (
        omega (
          arith,
          ap length comes,
          length-append (m.0 ++ n.0) (wire e n.1 ps),
          length-append m.0 n.0,
          e.length-encrypt_packet s (be_bytes (length p)),
        ))

  turn_read_data_chunk :
      (x : Connection e c) (s : e.Cipher) (p b : List ℕ) (es : List ReadEvent)
      → x.reader.cipher ≡ some s
      → b ≡ (e.encrypt_packet s p).0
      → poll_read_exact e c (length p + e.tag_len) x
        ≡ (Poll.ready (ok (length p + e.tag_len)), with_fill x b es)
      → turn_read_data e c (length p) x ≡ (
        Poll.ready (ok none),
        record x {
          reader = record x.reader {
            state = DecryptReadState.buffered_data 0;
            cipher = some (e.encrypt_packet s p).1;
            buffer = p;
            data_chunk_count = (x.reader.data_chunk_count + 1) % 2 ^ 64;
          };
          stream = es;
        },
      )
  unfolding turn_read_data poll_read_data
  turn_read_data_chunk x s p b es has holds eq =
      let (plain, decrypted, starts) =
        decrypt_buffer-encrypted (with_fill x b es) s p (length p + e.tag_len) has holds refl in
      let some_bytes : (length p + e.tag_len == 0) ≡ false = ground (arith, e.tag_len-pos) in
      rw (eq, some_bytes, decrypted, starts)

  pub turn_read_data_lem :
      (remaining : ℕ) (x : Connection e c) (text : List ℕ) (s : e.Cipher) (p : List ℕ)
      (ps : List (List ℕ))
      → x.reader.state ≡ DecryptReadState.read_data (length p)
      → x.reader.cipher ≡ some s
      → x.reader.buffer ++ incoming x.stream
        ≡ (e.encrypt_packet s p).0 ++ wire e (e.encrypt_packet s p).1 ps
      → text ≡ p ++ concat ps
      → Filling (length p + e.tag_len) x
      → Turn b time remaining (pendings x.stream) text (turn_read_data e c (length p) x)
  turn_read_data_lem remaining x text s p ps is has comes carries
        (Filling.waits b es eq same le alive less) =
      let waits : turn_read_data e c (length p) x ≡ (Poll.pending, with_fill x b es) =
        unfold turn_read_data poll_read_data in rw eq in
      rw waits
        (Turn.waits refl (Expects.at_data s p ps is has le (same ∙ comes) carries) alive less)
  turn_read_data_lem remaining x text s p ps is has comes carries
        (Filling.fills b es eq same le alive less) =
      let m = e.encrypt_packet s p in
      let (front, back) =
        append_inj b m.0 (omega (arith, e.length-encrypt_packet s p)) (same ∙ comes) in
      rw (turn_read_data_chunk x s p b es has front eq)
        (Turn.goes refl (Expects.buffered m.1 ps 0 refl refl back carries) alive less)
  turn_read_data_lem remaining x text s p ps is has comes carries (Filling.ends eq none_left) =
      let m = e.encrypt_packet s p in
      absurd (
        omega
          (arith, ap length comes, length-append m.0 (wire e m.1 ps), e.length-encrypt_packet s p))

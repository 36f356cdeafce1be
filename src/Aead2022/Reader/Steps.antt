-- ===== src/Aead2022/Reader/Steps.antt =====
-- One turn of the reader on bytes that were encrypted for it.
use mathlib.Core.List.{append-nil}
use mobile_android_obfuscati.Common.{
  ℕ, ◌+◌, ◌≤◌, ◌<◌, ◌≡◌, refl, ap, ◌∙◌, arith, true, List, [], ◌++◌, length, take, drop, some,
}
use mobile_android_obfuscati.Common.{ok}
use mobile_android_obfuscati.Aead.Async.{Poll}
use mobile_android_obfuscati.Aead.Cipher.{Aead, NonceCheck}
use mobile_android_obfuscati.Aead.Transport.{ReadEvent, incoming, AreAlive, pendings}
use mobile_android_obfuscati.Aead.Reader.Steps.{drop_all, take_all}
use mobile_android_obfuscati.Aead.Reader.{fill}
use mobile_android_obfuscati.Aead2022.Connection.{Connection}
use mobile_android_obfuscati.Aead2022.Reader.{filled, poll_read_exact, decrypt_buffer}
use mobile_android_obfuscati.Aead.Reader.Fill.{Outcome, FillOutcome, fill-alive}

module _ {e : Aead} {c : NonceCheck} where
  abbrev pub with_fill : Connection e c → List ℕ → List ReadEvent → Connection e c
  with_fill x buffer stream = record x {
    reader = record x.reader { buffer = buffer };
    stream = stream;
  }

  -- What `poll_read_exact` comes to over a stream that stays alive.
  pub data Filling (size : ℕ) (x : Connection e c) : Type 0 where
    waits :
        (b : List ℕ) (es : List ReadEvent)
        → poll_read_exact e c size x ≡ (Poll.pending, with_fill x b es)
        → b ++ incoming es ≡ x.reader.buffer ++ incoming x.stream
        → length b ≤ size
        → AreAlive es
        → pendings es < pendings x.stream
        → Filling size x
    fills :
        (b : List ℕ) (es : List ReadEvent)
        → poll_read_exact e c size x ≡ (Poll.ready (ok size), with_fill x b es)
        → b ++ incoming es ≡ x.reader.buffer ++ incoming x.stream
        → length b ≡ size
        → AreAlive es
        → pendings es ≤ pendings x.stream
        → Filling size x
    ends :
        (x.reader.buffer ++ incoming x.stream ≡ []
          → poll_read_exact e c size x ≡ (Poll.ready (ok 0), with_fill x [] []))
        → length (x.reader.buffer ++ incoming x.stream) < size
        → Filling size x

  pub poll_read_exact-Filling :
      (size : ℕ) (x : Connection e c)
      → 0 < size
      → length x.reader.buffer ≤ size
      → AreAlive x.stream
      → Filling size x
  poll_read_exact-Filling size x pos le alive =
      go (fill size x.reader.buffer x.stream) (unfold poll_read_exact in ground arith)
        (fill-alive size x.reader.buffer x.stream le alive)
    where
      w : List ℕ
      w = x.reader.buffer ++ incoming x.stream

      go :
          (o : Outcome)
          → poll_read_exact e c size x ≡ filled e c x o
          → FillOutcome size w (pendings x.stream) o
          → Filling size x
      go (o, b, es) is (FillOutcome.waits a p q r s) =
          Filling.waits b es (is ∙ ap (λ t. filled e c x (t, b, es)) a) p q r s
      go (o, b, es) is (FillOutcome.fills a p q r s) =
          Filling.fills b es (is ∙ ap (λ t. filled e c x (t, b, es)) a) p q r s
      go (o, b, es) is (FillOutcome.ends a p q r) =
          Filling.ends (λ none_left. is ∙ rw (a, p, q, none_left) refl) r

  -- `decrypt_packet` on a buffer that holds one encrypted packet.
  pub decrypt_buffer-encrypted :
      (x : Connection e c) (s : e.Cipher) (p : List ℕ) (len : ℕ)
      → x.reader.cipher ≡ some s
      → x.reader.buffer ≡ (e.encrypt_packet s p).0
      → len ≡ length p + e.tag_len
      → (plain : List ℕ) × (decrypt_buffer e c len x ≡ (
        Poll.ready (ok true),
        record x {
          reader = record x.reader { cipher = some (e.encrypt_packet s p).1; buffer = plain };
        },
      ))
        × (take (length p) plain ≡ p)
  unfolding decrypt_buffer
  decrypt_buffer-encrypted x s p len has_cipher holds is_len =
      let m = (e.encrypt_packet s p).0 in
      let (valid, plain, next) = e.decrypt-encrypt s p in
      let size = e.length-encrypt_packet s p in
      let whole : take len m ≡ m = take_all len m (omega arith) in
      let rest : drop len m ≡ [] = drop_all len m (omega arith) in
      (
        (e.decrypt_packet s m).1,
        rw (has_cipher, holds, whole, rest, append-nil (e.decrypt_packet s m).1, valid, next) refl,
        plain,
      )

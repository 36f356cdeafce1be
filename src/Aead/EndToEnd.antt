-- ===== src/Aead/EndToEnd.antt =====
-- A writer of crates/shadowsocks/src/relay/tcprelay/aead.rs and the reader at the other end.
use mobile_android_obfuscati.Common.{ℕ, ◌+◌, ◌≤◌, ◌<◌, ◌≡◌, ◌∙◌, List, length, All, ok}
use mobile_android_obfuscati.Aead.Cipher.{Aead, NonceCheck}
use mobile_android_obfuscati.Aead.Transport.{
  ReadEvent, WriteEvent, incoming, AreAlive, pendings, WritesAreAlive, write_pendings,
}
use mobile_android_obfuscati.Aead.Reader.Receive.{receive, arriving, receive-wire}
use mobile_android_obfuscati.Aead.Writer.Send.{send, starting, send_all}

module _ (e : Aead) (c : NonceCheck) where
  -- What is written with `poll_write_encrypted` is read with `poll_read_decrypted`: for every text and
  -- key, however the stream takes the bytes and however they arrive, if the salt has the length of the
  -- method and is accepted and both sides poll often enough.
  pub receive-send :
      (polls : ℕ) (key salt text : List ℕ) (out : List WriteEvent) (context : c.Context)
      (in_stream : List ReadEvent) (rooms : List ℕ)
      → length salt ≡ e.salt_len
      → 0 < length text
      → WritesAreAlive out
      → length text + write_pendings out ≤ polls
      → AreAlive in_stream
      → incoming in_stream ≡ (send e polls text (starting e key salt out)).1.sent
      → (c.check_nonce_replay context salt).0 ≡ ok tt
      → All (λ room. 0 < room) rooms
      → length text + pendings in_stream ≤ length rooms
      → receive e c rooms (arriving key context in_stream) ≡ text
  receive-send polls key salt text out context in_stream rooms len some_text lives enough alive same
        accepted roomy long =
      let (_, chunks, short, sent, carries) =
        send_all e polls key salt text out some_text lives enough in
      receive-wire e c key salt context chunks in_stream rooms len short alive (same ∙ sent)
        accepted roomy (rw carries long)
      ∙ carries

-- ===== src/StreamCipher/EndToEnd.antt =====
-- A writer of crates/shadowsocks/src/relay/tcprelay/stream.rs and the reader at the other end.
use mobile_android_obfuscati.Common.{ℕ, ◌+◌, ◌≤◌, ◌<◌, ◌≡◌, ◌∙◌, List, ◌∷◌, ◌++◌, length, All, ok}
use mobile_android_obfuscati.Aead.Cipher.{NonceCheck}
use mobile_android_obfuscati.Aead.Transport.{
  ReadEvent, WriteEvent, incoming, AreAlive, pendings, WritesAreAlive, write_pendings,
}
use mobile_android_obfuscati.Aead.Wire.{concat}
use mobile_android_obfuscati.StreamCipher.{StreamCipher}
use mobile_android_obfuscati.StreamCipher.Reader.Receives.{receive, arriving, receive-encrypted}
use mobile_android_obfuscati.StreamCipher.Writer.Sends.{write_each, starting, sent-write_each}

module _ (s : StreamCipher) (c : NonceCheck) where
  -- Buffers that are written one after the other are received as one text, however the stream takes the
  -- bytes and however they arrive, if the initialisation vector has the length of the method and is
  -- accepted and both sides poll often enough.
  pub receive-write_each :
      (polls : ℕ) (key iv buf : List ℕ) (bufs : List (List ℕ)) (out : List WriteEvent)
      (context : c.Context) (in_stream : List ReadEvent) (rooms : List ℕ)
      → length iv ≡ s.iv_len
      → WritesAreAlive out
      → write_pendings out < polls
      → AreAlive in_stream
      → incoming in_stream ≡ (write_each s polls (buf ∷ bufs) (starting s key iv out)).sent
      → (c.check_nonce_replay context iv).0 ≡ ok tt
      → All (λ room. 0 < room) rooms
      → length (buf ++ concat bufs) + pendings in_stream ≤ length rooms
      → receive s c rooms (arriving s c key context in_stream) ≡ buf ++ concat bufs
  receive-write_each polls key iv buf bufs out context in_stream rooms len lives enough alive same
        accepted roomy long =
      receive-encrypted s c key iv context (buf ++ concat bufs) in_stream rooms len alive
        (same ∙ sent-write_each s polls key iv buf bufs out lives enough) accepted roomy long

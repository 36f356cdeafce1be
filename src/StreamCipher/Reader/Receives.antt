-- ===== src/StreamCipher/Reader/Receives.antt =====
-- The bytes that a caller of `poll_read_decrypted` receives.
pub mod Polls
use mathlib.Core.List.{append_assoc, append-nil}
use mobile_android_obfuscati.Common.{
  ℕ, zero, suc, ◌+◌, ◌-◌, ◌≤◌, ◌<◌, ◌≡◌, refl, sym, subst, ap, ◌∙◌, arith, ◌==◌, ltb, leb, true,
  false, Bool-cases, inl, inr, List, [], ◌∷◌, ◌++◌, length, take, drop, length-append, length-take,
  length-drop, take-append-drop, append_inj, All, some,
}
use mobile_android_obfuscati.Common.{Result, ok, err, panic}
use mobile_android_obfuscati.Aead.Async.{Poll}
use mobile_android_obfuscati.Aead.Cipher.{NonceCheck}
use mobile_android_obfuscati.Aead.Transport.{ReadEvent, poll_read, incoming, AreAlive, pendings}
use mobile_android_obfuscati.Aead.Reader.{fill}
use mobile_android_obfuscati.Aead.Reader.Fill.{Outcome, FillOutcome, fill-alive}
use mobile_android_obfuscati.Aead.Reader.Steps.{take_all}
use mobile_android_obfuscati.Aead.Reader.Receive.{no_bytes, Receives, delivered-Receives}
use mobile_android_obfuscati.StreamCipher.{StreamCipher, ProtocolError}
use mobile_android_obfuscati.StreamCipher.Reader.{
  DecryptReadState, Connection, new, poll_read_exact, iv_checked, poll_read_iv, decrypt_read,
  turn_read, dispatch, poll_read_decrypted,
}
use mobile_android_obfuscati.StreamCipher.Reader.Receives.Polls.{
  Expects, Progress, poll_read_decrypted-Progress,
}

module _ (s : StreamCipher) (c : NonceCheck) where
  abbrev pub received :
      Poll (Result ProtocolError (List ℕ)) × Connection s c → (Connection s c → List ℕ) → List ℕ
  received (Poll.pending, x) more = more x
  received (Poll.ready (ok out), x) more = out ++ more x
  received (Poll.ready (err failure), x) more = []
  received (Poll.ready panic, x) more = []

  -- A caller that polls again after each wait and each success, each time with room for so many bytes.
  abbrev pub receive : List ℕ → Connection s c → List ℕ
  receive [] x = []
  receive (room ∷ rooms) x = received (poll_read_decrypted s c room x) (receive rooms)

  -- A new reader over the bytes of a stream.
  abbrev pub arriving : List ℕ → c.Context → List ReadEvent → Connection s c
  arriving key context stream = record { reader = new s key; context = context; stream = stream }

module _ {s : StreamCipher} {c : NonceCheck} where
  received-Progress :
      (room p : ℕ) (rooms : List ℕ) (text : List ℕ)
      (a : Poll (Result ProtocolError (List ℕ)) × Connection s c) (more : Connection s c → List ℕ)
      → ((y : Connection s c) (left : List ℕ)
          → Expects y left
          → AreAlive y.stream
          → Receives rooms (pendings y.stream) left (more y))
      → Progress room p text a
      → Receives (room ∷ rooms) p text (received s c a more)
  received-Progress room p rooms text (r, y) more next (Progress.waits is left alive less) =
      let (rest, joined, all) = next y text left alive in
      (rest, rw is joined, λ roomy h. all roomy.1 (omega arith))
  received-Progress room p rooms text (r, y) more next
        (Progress.delivers out left is waiting alive less parts moves) =
      rw is (
        delivered-Receives room (pendings y.stream) p rooms out left text (more y) less parts moves
          (next y left waiting alive))

  receive-Receives :
      (rooms : List ℕ) (x : Connection s c) (text : List ℕ)
      → Expects x text
      → AreAlive x.stream
      → Receives rooms (pendings x.stream) text (receive s c rooms x)
  receive-Receives [] x text waiting alive = (text, refl, λ _ h. no_bytes text (omega arith))
  receive-Receives (room ∷ rooms) x text waiting alive =
      received-Progress room (pendings x.stream) rooms text (poll_read_decrypted s c room x)
        (receive s c rooms) (receive-Receives rooms)
        (poll_read_decrypted-Progress room text x waiting alive)

  new-Expects :
      (key iv : List ℕ) (context : c.Context) (text : List ℕ) (stream : List ReadEvent)
      → length iv ≡ s.iv_len
      → incoming stream ≡ iv ++ (s.encrypt_packet (s.new key iv) text).0
      → (c.check_nonce_replay context iv).0 ≡ ok tt
      → Expects (arriving s c key context stream) text
  unfolding new
  new-Expects key iv context text stream len comes accepted = elim (Bool-cases (ltb 0 s.iv_len)) [
    | inl has_iv ↦
        rw has_iv (Expects.unread key iv refl (ground arith) len (omega arith) comes accepted)
    | inr no_iv ↦
        let none_left = no_bytes iv (ground arith) in
        rw no_iv (Expects.reading (s.new key []) refl refl (rw none_left at comes))
  ]

module _ (s : StreamCipher) (c : NonceCheck) where
  -- Over a stream of an initialisation vector that the check accepts and of an encrypted text, however
  -- it is cut up and interrupted, all of the text is received, in order and once, with room at each poll
  -- and as many polls as the stream has pauses and the text has bytes.
  pub receive-encrypted :
      (key iv : List ℕ) (context : c.Context) (text : List ℕ) (stream : List ReadEvent)
      (rooms : List ℕ)
      → length iv ≡ s.iv_len
      → AreAlive stream
      → incoming stream ≡ iv ++ (s.encrypt_packet (s.new key iv) text).0
      → (c.check_nonce_replay context iv).0 ≡ ok tt
      → All (λ room. 0 < room) rooms
      → length text + pendings stream ≤ length rooms
      → receive s c rooms (arriving s c key context stream) ≡ text
  receive-encrypted key iv context text stream rooms len alive comes accepted roomy enough =
      let x = arriving s c key context stream in
      let (rest, joined, all) =
        receive-Receives rooms x text (new-Expects key iv context text stream len comes accepted)
          alive in
      rw (all roomy enough, append-nil (receive s c rooms x)) at joined

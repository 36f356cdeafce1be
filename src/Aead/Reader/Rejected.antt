-- ===== src/Aead/Reader/Rejected.antt =====
-- A stream whose salt the context does not accept delivers nothing.
use mathlib.Core.Option.{some-injective}
use mobile_android_obfuscati.Common.{
  ℕ, zero, suc, ◌<◌, ◌≡◌, refl, subst, ap, ◌∙◌, arith, ltb, true, List, [], ◌∷◌, ◌++◌, length,
  Option, some,
}
use mobile_android_obfuscati.Common.{Result, ok, err, panic, IoErrorKind}
use mobile_android_obfuscati.Aead.Async.{Poll}
use mobile_android_obfuscati.Aead.Cipher.{Aead, NonceCheck}
use mobile_android_obfuscati.Aead.Transport.{ReadEvent, incoming}
use mobile_android_obfuscati.Aead.Reader.{
  ProtocolError, Connection, new, turn, Answer, after_turn, read_loop, enough_fuel,
  poll_read_decrypted,
}
use mobile_android_obfuscati.Aead.Reader.Ends.{poll_read_decrypted_total}
use mobile_android_obfuscati.Aead.Reader.Receive.{receive, received, arriving}
use mobile_android_obfuscati.Aead.Reader.Refuses.{Refused, Held, turn-Held}

module _ {e : Aead} {c : NonceCheck} where
  -- What a poll of such a reader may come to.
  data Silent (salt : List ℕ) (k : IoErrorKind) (a : Answer e c) : Type 0 where
    waits : a.0 ≡ Poll.pending → Refused salt k a.1 → Silent salt k a
    ends : a.0 ≡ Poll.ready (ok []) → Refused salt k a.1 → Silent salt k a
    fails : (failure : ProtocolError) → a.0 ≡ Poll.ready (err failure) → Silent salt k a
    panics : a.0 ≡ Poll.ready panic → Silent salt k a

  after_turn-Silent :
      (salt : List ℕ) (k : IoErrorKind) (a : Answer e c)
      (r : Poll (Result ProtocolError (Option (List ℕ))) × Connection e c)
      (again : Connection e c → Option (Answer e c))
      → ((y : Connection e c) → Refused salt k y → again y ≡ some a → Silent salt k a)
      → Held salt k r
      → after_turn e c r again ≡ some a
      → Silent salt k a
  after_turn-Silent salt k a (r, y) again step (Held.waits is rest) h =
      let eq = rw is at h in
      subst (Silent salt k) (some-injective (Poll.pending, y) a eq) (Silent.waits refl rest)
  after_turn-Silent salt k a (r, y) again step (Held.goes is rest) h = step y rest (rw is at h)
  after_turn-Silent salt k a (r, y) again step (Held.ends is rest) h =
      let eq = rw is at h in
      subst (Silent salt k) (some-injective (Poll.ready (ok []), y) a eq) (Silent.ends refl rest)
  after_turn-Silent salt k a (r, y) again step (Held.fails failure is) h =
      let eq = rw is at h in
      subst (Silent salt k) (some-injective (Poll.ready (err failure), y) a eq)
        (Silent.fails failure refl)
  after_turn-Silent salt k a (r, y) again step (Held.panics is) h =
      let eq = rw is at h in
      subst (Silent salt k) (some-injective (Poll.ready panic, y) a eq) (Silent.panics refl)

  read_loop-Silent :
      (fuel room : ℕ) (salt : List ℕ) (k : IoErrorKind) (x : Connection e c) (a : Answer e c)
      → Refused salt k x
      → read_loop e c fuel room x ≡ some a
      → Silent salt k a
  unfolding read_loop
  read_loop-Silent zero room salt k x a refused h = absurd (ground arith)
  read_loop-Silent (suc fuel) room salt k x a refused h =
      after_turn-Silent salt k a (turn e c room x) (read_loop e c fuel room)
        (λ y. read_loop-Silent fuel room salt k y a) (turn-Held room salt k x refused) h

  received-Silent :
      (salt : List ℕ) (k : IoErrorKind) (a : Answer e c) (more : Connection e c → List ℕ)
      → ((y : Connection e c) → Refused salt k y → more y ≡ [])
      → Silent salt k a
      → received e c (some a) more ≡ []
  received-Silent salt k (r, y) more next (Silent.waits is rest) = rw is (next y rest)
  received-Silent salt k (r, y) more next (Silent.ends is rest) = rw is (next y rest)
  received-Silent salt k (r, y) more next (Silent.fails failure is) = rw is refl
  received-Silent salt k (r, y) more next (Silent.panics is) = rw is refl

  pub receive-Refused :
      (rooms : List ℕ) (salt : List ℕ) (k : IoErrorKind) (x : Connection e c)
      → Refused salt k x
      → receive e c rooms x ≡ []
  receive-Refused [] salt k x refused = refl
  receive-Refused (room ∷ rooms) salt k x refused =
      let (a, is) = poll_read_decrypted_total room x in
      let loop : read_loop e c (enough_fuel e c x) room x ≡ some a =
        unfold poll_read_decrypted in is in
      ap (λ r. received e c r (receive e c rooms)) is
      ∙ received-Silent salt k a (receive e c rooms) (λ y. receive-Refused rooms salt k y)
          (read_loop-Silent (enough_fuel e c x) room salt k x a refused loop)

module _ (e : Aead) (c : NonceCheck) where
  -- Whatever follows a salt that the check does not accept, however the stream is cut up or fails, and
  -- with any room at each poll, no byte is received.
  pub receive_rejected :
      (key salt rest : List ℕ) (k : IoErrorKind) (context : c.Context) (stream : List ReadEvent)
      (rooms : List ℕ)
      → 0 < e.salt_len
      → length salt ≡ e.salt_len
      → incoming stream ≡ salt ++ rest
      → (c.check_nonce_replay context salt).0 ≡ err k
      → receive e c rooms (arriving key context stream) ≡ []
  receive_rejected key salt rest k context stream rooms salted len comes refused =
      receive-Refused rooms salt k (arriving key context stream) (
        unfold new in
        let salts : ltb 0 e.salt_len ≡ true = ground arith in
        rw salts (Refused.unsalted key rest refl len (omega arith) comes refused))

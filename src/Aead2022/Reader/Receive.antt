-- ===== src/Aead2022/Reader/Receive.antt =====
-- The bytes that a caller of `poll_read_decrypted` receives.
use mathlib.Core.Option.{some-injective}
use mobile_android_obfuscati.Common.{
  ℕ, zero, suc, ◌≤◌, ◌<◌, ◌≡◌, refl, sym, subst, arith, List, [], ◌∷◌, ◌++◌, length, All, Option,
  none, some,
}
use mobile_android_obfuscati.Common.{Result, ok, err, panic}
use mobile_android_obfuscati.Aead.Async.{Poll}
use mobile_android_obfuscati.Aead.Cipher.{Aead, NonceCheck}
use mobile_android_obfuscati.Aead.Transport.{AreAlive, pendings}
use mobile_android_obfuscati.Aead.Reader.Receive.{no_bytes, Receives, delivered-Receives}
use mobile_android_obfuscati.Aead2022.Connection.{Connection}
use mobile_android_obfuscati.Aead2022.Identity.{Primitives}
use mobile_android_obfuscati.Aead2022.Header.{ProtocolError, abs_diff}
use mobile_android_obfuscati.Aead2022.Reader.{
  turn, Answer, after_turn, read_loop, enough_fuel, poll_read_decrypted,
}
use mobile_android_obfuscati.Aead2022.Reader.Ends.{poll_read_decrypted_2022_total}
use mobile_android_obfuscati.Aead2022.Reader.Expects.{Expects, Turn}
use mobile_android_obfuscati.Aead2022.Reader.Delivers.{turn_lem}

module _ (e : Aead) (c : NonceCheck) (b : Primitives) where
  abbrev pub received : Option (Answer e c) → (Connection e c → List ℕ) → List ℕ
  received none more = []
  received (some (Poll.pending, x)) more = more x
  received (some (Poll.ready (ok out), x)) more = out ++ more x
  received (some (Poll.ready (err failure), x)) more = []
  received (some (Poll.ready panic, x)) more = []

  -- A caller that polls again after each wait and each success, each time at some time and with room for
  -- so many bytes.
  abbrev pub receive : List (ℕ × ℕ) → Connection e c → List ℕ
  receive [] x = []
  receive ((now, room) ∷ polls) x = received (poll_read_decrypted e c b now room x) (receive polls)

abbrev pub rooms_of : List (ℕ × ℕ) → List ℕ
rooms_of [] = []
rooms_of ((now, room) ∷ polls) = room ∷ rooms_of polls

-- All polls are within 30 seconds of the time.
abbrev pub Timely : ℕ → List (ℕ × ℕ) → Type 0
Timely time polls = All (λ poll. abs_diff poll.0 time ≤ 30) polls

module _ {e : Aead} {c : NonceCheck} (b : Primitives) (time : ℕ) where
  -- What a poll may come to.
  data Progress (room p : ℕ) (text : List ℕ) (a : Answer e c) : Type 0 where
    waits :
        a.0 ≡ Poll.pending
        → Expects b time a.1 text
        → AreAlive a.1.stream
        → pendings a.1.stream < p
        → Progress room p text a
    delivers :
        (out rest : List ℕ)
        → a.0 ≡ Poll.ready (ok out)
        → Expects b time a.1 rest
        → AreAlive a.1.stream
        → pendings a.1.stream ≤ p
        → out ++ rest ≡ text
        → (0 < room → 0 < length text → 0 < length out)
        → Progress room p text a

  fewer :
      {room p q : ℕ} {text : List ℕ} {a : Answer e c}
      → p ≤ q
      → Progress room p text a
      → Progress room q text a
  fewer h (Progress.waits is rest alive less) = Progress.waits is rest alive (omega arith)
  fewer h (Progress.delivers out rest is more alive less joined moves) =
      Progress.delivers out rest is more alive (omega arith) joined moves

  after_turn-Progress :
      (now room p : ℕ) (text : List ℕ) (a : Answer e c)
      (r : Poll (Result ProtocolError (Option (List ℕ))) × Connection e c)
      (again : Connection e c → Option (Answer e c))
      → ((y : Connection e c)
          → Expects b time y text
          → AreAlive y.stream
          → again y ≡ some a
          → Progress room (pendings y.stream) text a)
      → Turn b time room p text r
      → after_turn e c r again ≡ some a
      → Progress room p text a
  after_turn-Progress now room p text a (r, y) again step (Turn.waits is rest alive less) h =
      let eq = rw is at h in
      subst (Progress room p text) (some-injective (Poll.pending, y) a eq)
        (Progress.waits refl rest alive less)
  after_turn-Progress now room p text a (r, y) again step (Turn.goes is rest alive less) h =
      fewer less (step y rest alive (rw is at h))
  after_turn-Progress now room p text a (r, y) again step
        (Turn.delivers out rest is more alive less joined _ moves) h =
      let eq = rw is at h in
      subst (Progress room p text) (some-injective (Poll.ready (ok out), y) a eq)
        (Progress.delivers out rest refl more alive less joined moves)

  read_loop-Progress :
      (now fuel room : ℕ) (x : Connection e c) (text : List ℕ) (a : Answer e c)
      → abs_diff now time ≤ 30
      → Expects b time x text
      → AreAlive x.stream
      → read_loop e c b now fuel room x ≡ some a
      → Progress room (pendings x.stream) text a
  unfolding read_loop
  read_loop-Progress now zero room x text a timely waiting alive h = absurd (ground arith)
  read_loop-Progress now (suc fuel) room x text a timely waiting alive h =
      after_turn-Progress now room (pendings x.stream) text a (turn e c b now room x)
        (read_loop e c b now fuel room) (λ y. read_loop-Progress now fuel room y text a timely)
        (turn_lem b time now room x text timely waiting alive) h

  received-Progress :
      (room p : ℕ) (rooms : List ℕ) (text : List ℕ) (a : Answer e c)
      (more : Connection e c → List ℕ)
      → ((y : Connection e c) (left : List ℕ)
          → Expects b time y left
          → AreAlive y.stream
          → Receives rooms (pendings y.stream) left (more y))
      → Progress room p text a
      → Receives (room ∷ rooms) p text (received e c b (some a) more)
  received-Progress room p rooms text (r, y) more next (Progress.waits is left alive less) =
      let (rest, joined, all) = next y text left alive in
      (rest, rw is joined, λ roomy h. all roomy.1 (omega arith))
  received-Progress room p rooms text (r, y) more next
        (Progress.delivers out left is waiting alive less parts moves) =
      rw is (
        delivered-Receives room (pendings y.stream) p rooms out left text (more y) less parts moves
          (next y left waiting alive))

  pub receive-Receives :
      (polls : List (ℕ × ℕ)) (x : Connection e c) (text : List ℕ)
      → Timely time polls
      → Expects b time x text
      → AreAlive x.stream
      → Receives (rooms_of polls) (pendings x.stream) text (receive e c b polls x)
  receive-Receives [] x text timely waiting alive = (text, refl, λ _ h. no_bytes text (omega arith))
  receive-Receives ((now, room) ∷ polls) x text timely waiting alive =
      let (a, is) = poll_read_decrypted_2022_total b now room x in
      let loop : read_loop e c b now (enough_fuel e c x) room x ≡ some a =
        unfold poll_read_decrypted in is in
      subst
        (λ r.
          Receives (room ∷ rooms_of polls) (pendings x.stream) text
            (received e c b r (receive e c b polls)))
        (sym is)
        (received-Progress room (pendings x.stream) (rooms_of polls) text a (receive e c b polls)
          (λ y left. receive-Receives polls y left timely.1)
          (read_loop-Progress now (enough_fuel e c x) room x text a timely.0 waiting alive loop))

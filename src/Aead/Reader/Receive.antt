-- ===== src/Aead/Reader/Receive.antt =====
-- The bytes that a caller of `poll_read_decrypted` receives.
use mathlib.Core.Option.{some-injective}
use mathlib.Core.List.{append_assoc, append-nil}
use mobile_android_obfuscati.Common.{
  ℕ, zero, suc, false, ◌+◌, ◌≤◌, ◌<◌, ◌≡◌, refl, sym, subst, ap, arith, dec_lt, List, [], ◌∷◌, ◌++◌,
  length, length-append, All, Option, none, some,
}
use mobile_android_obfuscati.Common.{Result, ok, err, panic}
use mobile_android_obfuscati.Aead.Async.{Poll}
use mobile_android_obfuscati.Aead.Cipher.{Aead, NonceCheck}
use mobile_android_obfuscati.Aead.Transport.{ReadEvent, incoming, AreAlive, pendings}
use mobile_android_obfuscati.Aead.Wire.{wire, concat}
use mobile_android_obfuscati.Aead.Reader.{
  ProtocolError, DecryptReadState, DecryptedReader, Connection, new, turn, Answer, after_turn,
  read_loop, enough_fuel, poll_read_decrypted,
}
use mobile_android_obfuscati.Aead.Reader.Ends.{poll_read_decrypted_total}
use mobile_android_obfuscati.Aead.Reader.Expects.{AreShort, Expects, Turn}
use mobile_android_obfuscati.Aead.Reader.Delivers.{turn_lem}

module _ (e : Aead) (c : NonceCheck) where
  abbrev pub received : Option (Answer e c) → (Connection e c → List ℕ) → List ℕ
  received none more = []
  received (some (Poll.pending, x)) more = more x
  received (some (Poll.ready (ok out), x)) more = out ++ more x
  received (some (Poll.ready (err failure), x)) more = []
  received (some (Poll.ready panic, x)) more = []

  -- A caller that polls again after each wait and each success, each time with room for so many bytes.
  abbrev pub receive : List ℕ → Connection e c → List ℕ
  receive [] x = []
  receive (room ∷ rooms) x = received (poll_read_decrypted e c room x) (receive rooms)

pub no_bytes : (text : List ℕ) → length text ≤ 0 → text ≡ []
no_bytes [] h = refl
no_bytes (b ∷ text) h = absurd (omega arith)

-- The bytes received are the first of the text, and all of it after enough polls.
abbrev pub Receives : List ℕ → ℕ → List ℕ → List ℕ → Type 0
Receives rooms p text bytes =
    (rest : List ℕ) × (bytes ++ rest ≡ text)
    × (All (λ room. 0 < room) rooms → length text + p ≤ length rooms → rest ≡ [])

-- A poll that delivers the first bytes leaves the others to the polls behind it.
pub delivered-Receives :
    (room q p : ℕ) (rooms out left text bytes : List ℕ)
    → q ≤ p
    → out ++ left ≡ text
    → (0 < room → 0 < length text → 0 < length out)
    → Receives rooms q left bytes
    → Receives (room ∷ rooms) p text (out ++ bytes)
delivered-Receives room q p rooms out left text bytes less parts moves (rest, joined, all) = (
  rest,
  rw (append_assoc out bytes rest, joined) parts,
  λ roomy h. elim (dec_lt 0 (length left)) [
    | yes some_left ↦
        let first = moves roomy.0 (omega (arith, ap length parts, length-append out left)) in
        all roomy.1 (omega (arith, ap length parts, length-append out left))
    | no none_left ↦ no_bytes rest (omega (arith, ap length joined, length-append bytes rest))
  ],
)

module _ {e : Aead} {c : NonceCheck} where
  -- What a poll may come to.
  data Progress (room p : ℕ) (text : List ℕ) (a : Answer e c) : Type 0 where
    waits :
        a.0 ≡ Poll.pending
        → Expects a.1 text
        → AreAlive a.1.stream
        → pendings a.1.stream < p
        → Progress room p text a
    delivers :
        (out rest : List ℕ)
        → a.0 ≡ Poll.ready (ok out)
        → Expects a.1 rest
        → AreAlive a.1.stream
        → pendings a.1.stream ≤ p
        → out ++ rest ≡ text
        → (0 < room → 0 < length text → 0 < length out)
        → Progress room p text a

  fewer :
      {room p q : ℕ} {text : List ℕ} {a : Answer e c}
      → p ≤ q
      → Progress room p text a
      → Progress room q text a
  fewer h (Progress.waits is rest alive less) = Progress.waits is rest alive (omega arith)
  fewer h (Progress.delivers out rest is more alive less joined moves) =
      Progress.delivers out rest is more alive (omega arith) joined moves

  after_turn-Progress :
      (room p : ℕ) (text : List ℕ) (a : Answer e c)
      (r : Poll (Result ProtocolError (Option (List ℕ))) × Connection e c)
      (again : Connection e c → Option (Answer e c))
      → ((y : Connection e c)
          → Expects y text
          → AreAlive y.stream
          → again y ≡ some a
          → Progress room (pendings y.stream) text a)
      → Turn room p text r
      → after_turn e c r again ≡ some a
      → Progress room p text a
  after_turn-Progress room p text a (r, y) again step (Turn.waits is rest alive less) h =
      let eq = rw is at h in
      subst (Progress room p text) (some-injective (Poll.pending, y) a eq)
        (Progress.waits refl rest alive less)
  after_turn-Progress room p text a (r, y) again step (Turn.goes is rest alive less) h =
      fewer less (step y rest alive (rw is at h))
  after_turn-Progress room p text a (r, y) again step
        (Turn.delivers out rest is more alive less joined _ moves) h =
      let eq = rw is at h in
      subst (Progress room p text) (some-injective (Poll.ready (ok out), y) a eq)
        (Progress.delivers out rest refl more alive less joined moves)

  read_loop-Progress :
      (fuel room : ℕ) (x : Connection e c) (text : List ℕ) (a : Answer e c)
      → Expects x text
      → AreAlive x.stream
      → read_loop e c fuel room x ≡ some a
      → Progress room (pendings x.stream) text a
  unfolding read_loop
  read_loop-Progress zero room x text a waiting alive h = absurd (ground arith)
  read_loop-Progress (suc fuel) room x text a waiting alive h =
      after_turn-Progress room (pendings x.stream) text a (turn e c room x)
        (read_loop e c fuel room) (λ y. read_loop-Progress fuel room y text a)
        (turn_lem room x text waiting alive) h

  received-Progress :
      (room p : ℕ) (rooms : List ℕ) (text : List ℕ) (a : Answer e c)
      (more : Connection e c → List ℕ)
      → ((y : Connection e c) (left : List ℕ)
          → Expects y left
          → AreAlive y.stream
          → Receives rooms (pendings y.stream) left (more y))
      → Progress room p text a
      → Receives (room ∷ rooms) p text (received e c (some a) more)
  received-Progress room p rooms text (r, y) more next (Progress.waits is left alive less) =
      let (rest, joined, all) = next y text left alive in
      (rest, rw is joined, λ roomy h. all roomy.1 (omega arith))
  received-Progress room p rooms text (r, y) more next
        (Progress.delivers out left is waiting alive less parts moves) =
      rw is (
        delivered-Receives room (pendings y.stream) p rooms out left text (more y) less parts moves
          (next y left waiting alive))

  receive-Receives :
      (rooms : List ℕ) (x : Connection e c) (text : List ℕ)
      → Expects x text
      → AreAlive x.stream
      → Receives rooms (pendings x.stream) text (receive e c rooms x)
  receive-Receives [] x text waiting alive = (text, refl, λ _ h. no_bytes text (omega arith))
  receive-Receives (room ∷ rooms) x text waiting alive =
      let (a, is) = poll_read_decrypted_total room x in
      let loop : read_loop e c (enough_fuel e c x) room x ≡ some a =
        unfold poll_read_decrypted in is in
      subst
        (λ r. Receives (room ∷ rooms) (pendings x.stream) text (received e c r (receive e c rooms)))
        (sym is)
        (received-Progress room (pendings x.stream) rooms text a (receive e c rooms)
          (receive-Receives rooms)
          (read_loop-Progress (enough_fuel e c x) room x text a waiting alive loop))

  -- A new reader over the bytes of a stream with a salt that the context accepts.
  abbrev pub arriving : List ℕ → c.Context → List ReadEvent → Connection e c
  arriving key context stream = record { reader = new key; context = context; stream = stream }

  new-Expects :
      (key salt : List ℕ) (context : c.Context) (ps : List (List ℕ)) (stream : List ReadEvent)
      → length salt ≡ e.salt_len
      → AreShort ps
      → incoming stream ≡ salt ++ wire e (e.new key salt) ps
      → (c.check_nonce_replay context salt).0 ≡ ok tt
      → Expects (arriving key context stream) (concat ps)
  new-Expects key salt context ps stream len short comes accepted = elim (dec_lt 0 e.salt_len) [
    | yes salted ↦
        let starts : new {e = e} key ≡ record {
          state = DecryptReadState.wait_salt key;
          cipher = none;
          buffer = [];
          salt = none;
          has_handshaked = false;
        } =
          unfold new in ground arith in
        subst
          (λ (r : DecryptedReader e).
            Expects {c = c} (record { reader = r; context = context; stream = stream }) (concat ps))
          (sym starts)
          (Expects.salted key salt ps refl salted len (omega arith) comes accepted short refl)
    | no unsalted ↦
        let starts : new {e = e} key ≡ record {
          state = DecryptReadState.read_length;
          cipher = some (e.new key []);
          buffer = [];
          salt = none;
          has_handshaked = false;
        } =
          unfold new in ground arith in
        let no_salt = no_bytes salt (omega arith) in
        subst
          (λ (r : DecryptedReader e).
            Expects {c = c} (record { reader = r; context = context; stream = stream }) (concat ps))
          (sym starts)
          (Expects.at_length (e.new key []) ps refl refl (omega arith) (rw no_salt at comes) tt
            short refl)
  ]

module _ (e : Aead) (c : NonceCheck) where
  -- Over a stream of a salt that the check accepts and of chunks of at most 0x3FFF bytes, however it is
  -- cut up and interrupted, and with any room at each poll, the bytes received are the first bytes of
  -- what the chunks carry.
  pub receive-prefix :
      (key salt : List ℕ) (context : c.Context) (ps : List (List ℕ)) (stream : List ReadEvent)
      (rooms : List ℕ)
      → length salt ≡ e.salt_len
      → AreShort ps
      → AreAlive stream
      → incoming stream ≡ salt ++ wire e (e.new key salt) ps
      → (c.check_nonce_replay context salt).0 ≡ ok tt
      → (rest : List ℕ) × (receive e c rooms (arriving key context stream) ++ rest ≡ concat ps)
  receive-prefix key salt context ps stream rooms len short alive comes accepted =
      let (rest, joined, _) =
        receive-Receives rooms (arriving key context stream) (concat ps)
          (new-Expects key salt context ps stream len short comes accepted) alive in
      (rest, joined)

  -- With room at each poll and as many polls as the stream has pauses and the chunks have bytes, all
  -- that the chunks carry is received, in order and once.
  pub receive-wire :
      (key salt : List ℕ) (context : c.Context) (ps : List (List ℕ)) (stream : List ReadEvent)
      (rooms : List ℕ)
      → length salt ≡ e.salt_len
      → AreShort ps
      → AreAlive stream
      → incoming stream ≡ salt ++ wire e (e.new key salt) ps
      → (c.check_nonce_replay context salt).0 ≡ ok tt
      → All (λ room. 0 < room) rooms
      → length (concat ps) + pendings stream ≤ length rooms
      → receive e c rooms (arriving key context stream) ≡ concat ps
  receive-wire key salt context ps stream rooms len short alive comes accepted roomy enough =
      let x = arriving key context stream in
      let (rest, joined, all) =
        receive-Receives rooms x (concat ps)
          (new-Expects key salt context ps stream len short comes accepted) alive in
      rw (all roomy enough, append-nil (receive e c rooms x)) at joined

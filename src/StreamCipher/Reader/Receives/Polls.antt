-- ===== src/StreamCipher/Reader/Receives/Polls.antt =====
-- What one poll of a reader under a stream cipher delivers.
use mathlib.Core.List.{append_assoc}
use mobile_android_obfuscati.Common.{
  ℕ, zero, suc, ◌-◌, ◌≤◌, ◌<◌, ◌≡◌, refl, sym, subst, ap, ◌∙◌, arith, ◌==◌, ltb, leb, true, false,
  Bool-cases, inl, inr, List, [], ◌∷◌, ◌++◌, length, take, drop, length-append, length-take,
  length-drop, take-append-drop, append_inj, some,
}
use mobile_android_obfuscati.Common.{Result, ok}
use mobile_android_obfuscati.Aead.Async.{Poll}
use mobile_android_obfuscati.Aead.Cipher.{NonceCheck}
use mobile_android_obfuscati.Aead.Transport.{ReadEvent, poll_read, incoming, AreAlive, pendings}
use mobile_android_obfuscati.Aead.Reader.{fill}
use mobile_android_obfuscati.Aead.Reader.Fill.{Outcome, FillOutcome, fill-alive}
use mobile_android_obfuscati.Aead.Reader.Steps.{take_all}
use mobile_android_obfuscati.StreamCipher.{StreamCipher, ProtocolError}
use mobile_android_obfuscati.StreamCipher.Reader.{
  DecryptReadState, Connection, poll_read_exact, iv_checked, poll_read_iv, decrypt_read, turn_read,
  dispatch, poll_read_decrypted,
}

cut_left :
    (room n : ℕ) (rest : List ℕ)
    → leb (suc n) (suc room) ≡ false
    → length rest ≡ n - room
    → 0 < length rest
cut_left room n rest h size = ground arith

module _ (s : StreamCipher) where
  -- The first bytes of what is encrypted decrypt to the first bytes of the text.
  decrypt_front :
      (k : s.Cipher) (text a b : List ℕ)
      → a ++ b ≡ (s.encrypt_packet k text).0
      → (next : s.Cipher) × (s.decrypt_packet k a ≡ (true, take (length a) text, next))
        × (b ≡ (s.encrypt_packet next (drop (length a) text)).0)
  decrypt_front k text a b h =
      let n = length a in
      let front = take n text in
      let back = drop n text in
      let m = s.encrypt_packet k front in
      let whole : (s.encrypt_packet k text).0 ≡ m.0 ++ (s.encrypt_packet m.1 back).0 =
        ap (λ t. (s.encrypt_packet k t).0) (sym (take-append-drop n text))
        ∙ ap (λ r. r.0) (s.encrypt_packet-append k front back) in
      let size = s.length-encrypt_packet k front in
      let total = s.length-encrypt_packet k text in
      let (same, rest) =
        append_inj a m.0 (omega (arith, length-take n text, ap length h, length-append a b))
          (h ∙ whole) in
      (m.1, ap (s.decrypt_packet k) same ∙ s.decrypt-encrypt k front, rest)

module _ {s : StreamCipher} {c : NonceCheck} where
  -- The bytes that are buffered or yet to come are the rest of a stream that carries the text.
  pub data Expects (x : Connection s c) (text : List ℕ) : Type 0 where
    unread :
        (key iv : List ℕ)
        → x.reader.state ≡ DecryptReadState.wait_iv key
        → 0 < s.iv_len
        → length iv ≡ s.iv_len
        → length x.reader.buffer ≤ s.iv_len
        → x.reader.buffer ++ incoming x.stream ≡ iv ++ (s.encrypt_packet (s.new key iv) text).0
        → (c.check_nonce_replay x.context iv).0 ≡ ok tt
        → Expects x text
    reading :
        (k : s.Cipher)
        → x.reader.state ≡ DecryptReadState.read
        → x.reader.cipher ≡ some k
        → incoming x.stream ≡ (s.encrypt_packet k text).0
        → Expects x text

  -- What a poll may come to.
  pub data Progress (room p : ℕ) (text : List ℕ)
      (a : Poll (Result ProtocolError (List ℕ)) × Connection s c) : Type 0 where
    waits :
        a.0 ≡ Poll.pending
        → Expects a.1 text
        → AreAlive a.1.stream
        → pendings a.1.stream < p
        → Progress room p text a
    delivers :
        (out rest : List ℕ)
        → a.0 ≡ Poll.ready (ok out)
        → Expects a.1 rest
        → AreAlive a.1.stream
        → pendings a.1.stream ≤ p
        → out ++ rest ≡ text
        → (0 < room → 0 < length text → 0 < length out)
        → Progress room p text a

  decrypt_read-Progress :
      (room p : ℕ) (text m : List ℕ) (k : s.Cipher) (x : Connection s c)
      → x.reader.state ≡ DecryptReadState.read
      → x.reader.cipher ≡ some k
      → 0 < length m
      → m ++ incoming x.stream ≡ (s.encrypt_packet k text).0
      → AreAlive x.stream
      → pendings x.stream ≤ p
      → Progress room p text (decrypt_read s c m x)
  unfolding decrypt_read
  decrypt_read-Progress room p text m k x is has some_bytes comes alive less =
      let (next, opens, rest) = decrypt_front s k text m (incoming x.stream) comes in
      let n = length m in
      let size = s.length-encrypt_packet k text in
      rw (has, opens)
        (Progress.delivers (take n text) (drop n text) refl (Expects.reading next is refl rest)
          alive less (take-append-drop n text) (λ _ some_text. omega (arith, length-take n text)))

  turn_read-Progress :
      (room : ℕ) (text : List ℕ) (k : s.Cipher) (x : Connection s c) (es : List ReadEvent)
      → x.stream ≡ es
      → x.reader.state ≡ DecryptReadState.read
      → x.reader.cipher ≡ some k
      → incoming es ≡ (s.encrypt_packet k text).0
      → AreAlive es
      → Progress room (pendings es) text (turn_read s c room x)
  unfolding turn_read poll_read
  turn_read-Progress room text k x [] at is has comes alive =
      let none_left = s.length-encrypt_packet k text in
      rw at (
        Progress.delivers [] text refl (Expects.reading k is has comes) tt (omega arith) refl
          (λ _ some_text. absurd (omega (arith, ap length comes))))
  turn_read-Progress room text k x (ReadEvent.pending ∷ es) at is has comes alive =
      rw at (Progress.waits refl (Expects.reading k is has comes) alive.1 (omega arith))
  turn_read-Progress room text k x (ReadEvent.failed e ∷ es) at is has comes alive = absurd alive.0
  turn_read-Progress room text k x (ReadEvent.arrived [] ∷ es) at is has comes alive =
      absurd (omega (arith, alive.0))
  turn_read-Progress zero text k x (ReadEvent.arrived (b ∷ bs) ∷ es) at is has comes alive =
      let full : leb (suc (length bs)) 0 ≡ false = ground arith in
      rw (at, full)
        (Progress.delivers [] text refl (Expects.reading k is has comes) alive (omega arith) refl
          (λ some_room _. absurd (omega arith)))
  turn_read-Progress (suc room) text k x (ReadEvent.arrived (b ∷ bs) ∷ es) at is has comes alive =
      elim (Bool-cases (leb (suc (length bs)) (suc room))) [
        | inl fits ↦
            rw (at, fits)
              (decrypt_read-Progress (suc room) (pendings es) text (b ∷ bs) k
                (record x { stream = es }) is has (omega arith) comes alive.1 (omega arith))
        | inr long ↦
            let rest = ReadEvent.arrived (drop room bs) ∷ es in
            let left : 0 < length (drop room bs) =
              cut_left room (length bs) (drop room bs) long (length-drop room bs) in
            let same : (b ∷ take room bs) ++ (drop room bs ++ incoming es)
                ≡ (s.encrypt_packet k text).0 =
              ap (λ t. b ∷ t)
                (sym (append_assoc (take room bs) (drop room bs) (incoming es))
                  ∙ ap (λ t. t ++ incoming es) (take-append-drop room bs))
              ∙ comes in
            rw (at, long)
              (decrypt_read-Progress (suc room) (pendings es) text (b ∷ take room bs) k
                (record x { stream = rest }) is has (omega arith) same (left, alive.1)
                (omega arith))
      ]

  fewer :
      {room p q : ℕ} {text : List ℕ} {a : Poll (Result ProtocolError (List ℕ)) × Connection s c}
      → p ≤ q
      → Progress room p text a
      → Progress room q text a
  fewer h (Progress.waits is rest alive less) = Progress.waits is rest alive (omega arith)
  fewer h (Progress.delivers out rest is more alive less joined moves) =
      Progress.delivers out rest is more alive (omega arith) joined moves

  iv_checked-accepted :
      (x : Connection s c) (iv : List ℕ)
      → (c.check_nonce_replay x.context iv).0 ≡ ok tt
      → iv_checked s c x (c.check_nonce_replay x.context iv)
        ≡ (Poll.ready (ok tt), record x { context = (c.check_nonce_replay x.context iv).1 })
  iv_checked-accepted x iv accepted =
      ap (λ r. iv_checked s c x (r, (c.check_nonce_replay x.context iv).1)) accepted

  wait_iv-Progress :
      (room : ℕ) (text key iv : List ℕ) (x : Connection s c) (o : Outcome)
      → fill s.iv_len x.reader.buffer x.stream ≡ o
      → FillOutcome s.iv_len (x.reader.buffer ++ incoming x.stream) (pendings x.stream) o
      → x.reader.state ≡ DecryptReadState.wait_iv key
      → 0 < s.iv_len
      → length iv ≡ s.iv_len
      → x.reader.buffer ++ incoming x.stream ≡ iv ++ (s.encrypt_packet (s.new key iv) text).0
      → (c.check_nonce_replay x.context iv).0 ≡ ok tt
      → Progress room (pendings x.stream) text (dispatch s c room (DecryptReadState.wait_iv key) x)
  unfolding poll_read_iv poll_read_exact
  wait_iv-Progress room text key iv x (o, b, es) eq (FillOutcome.waits a same le alive less) is pos
        len comes accepted =
      let some_bytes : (s.iv_len == 0) ≡ false = ground arith in
      rw (some_bytes, eq, a)
        (Progress.waits refl (Expects.unread key iv is pos len le (same ∙ comes) accepted) alive
          less)
  wait_iv-Progress room text key iv x (o, b, es) eq (FillOutcome.fills a same le alive less) is pos
        len comes accepted =
      let some_bytes : (s.iv_len == 0) ≡ false = ground arith in
      let full : ltb s.iv_len s.iv_len ≡ false = ground arith in
      let (front, back) = append_inj b iv (omega arith) (same ∙ comes) in
      let whole : take s.iv_len b ≡ iv = take_all s.iv_len b (omega arith) ∙ front in
      let y = record x { reader = record x.reader { buffer = b }; stream = es } in
      rw (some_bytes, eq, a, full, whole, iv_checked-accepted y iv accepted, whole)
        (fewer less (turn_read-Progress room text (s.new key iv) _ es refl refl refl back alive))
  wait_iv-Progress room text key iv x (o, b, es) eq (FillOutcome.ends a same none_left short) is pos
        len comes accepted =
      absurd
        (omega (arith, ap length comes, length-append iv (s.encrypt_packet (s.new key iv) text).0))

  pub poll_read_decrypted-Progress :
      (room : ℕ) (text : List ℕ) (x : Connection s c)
      → Expects x text
      → AreAlive x.stream
      → Progress room (pendings x.stream) text (poll_read_decrypted s c room x)
  unfolding poll_read_decrypted
  poll_read_decrypted-Progress room text x (Expects.unread key iv is pos len le comes accepted)
        alive =
      subst (λ state. Progress room (pendings x.stream) text (dispatch s c room state x)) (sym is)
        (wait_iv-Progress room text key iv x (fill s.iv_len x.reader.buffer x.stream) refl
          (fill-alive s.iv_len x.reader.buffer x.stream le alive) is pos len comes accepted)
  poll_read_decrypted-Progress room text x (Expects.reading k is has comes) alive =
      subst (λ state. Progress room (pendings x.stream) text (dispatch s c room state x)) (sym is)
        (turn_read-Progress room text k x x.stream refl is has comes alive)

-- ===== src/Aead/Writer/Send.antt =====
-- A caller that writes a text.
use mathlib.Core.List.{append_assoc, append-nil}
use mobile_android_obfuscati.Common.{
  ℕ, zero, suc, ◌+◌, ◌≤◌, ◌<◌, ◌≡◌, ◌⊎◌, inl, inr, refl, sym, ap, ◌∙◌, arith, List, [], ◌∷◌, ◌++◌,
  length, drop, length-drop, All-append,
}
use mobile_android_obfuscati.Common.{Result, ok, err, panic, IoErrorKind}
use mobile_android_obfuscati.Aead.Async.{Poll}
use mobile_android_obfuscati.Aead.Cipher.{Aead}
use mobile_android_obfuscati.Aead.Transport.{WriteEvent, WritesAreAlive, write_pendings}
use mobile_android_obfuscati.Aead.Wire.{wire, concat}
use mobile_android_obfuscati.Aead.Reader.{max_packet_size}
use mobile_android_obfuscati.Aead.Reader.Expects.{AreShort}
use mobile_android_obfuscati.Aead.Reader.Receive.{no_bytes}
use mobile_android_obfuscati.Aead.Writer.{
  EncryptWriteState, Output, new, truncate, poll_write_encrypted,
}
use mobile_android_obfuscati.Aead.Writer.Sends.{
  unsent, Sends, Wrote, length-truncate, truncate-front, length-truncate_pos, poll_at_rest,
  poll_amid,
}

module _ (e : Aead) where
  -- `AsyncWriteExt::write_all` over so many polls: what is left of the text, and the output.
  abbrev pub go_on :
      List ℕ
      → Poll (Result IoErrorKind ℕ) × Output e
      → (List ℕ → Output e → List ℕ × Output e)
      → List ℕ × Output e
  go_on text (Poll.pending, x) more = more text x
  go_on text (Poll.ready (ok n), x) more = more (drop n text) x
  go_on text (Poll.ready (err k), x) more = (text, x)
  go_on text (Poll.ready panic, x) more = (text, x)

  abbrev pub send : ℕ → List ℕ → Output e → List ℕ × Output e
  send zero text x = (text, x)
  send (suc polls) [] x = ([], x)
  send (suc polls) (b ∷ text) x =
      go_on (b ∷ text) (poll_write_encrypted e (b ∷ text) x) (send polls)

  abbrev pub starting : List ℕ → List ℕ → List WriteEvent → Output e
  starting key salt stream = record { writer = new e key salt; stream = stream; sent = [] }

pub concat-append : (ps qs : List (List ℕ)) → concat (ps ++ qs) ≡ concat ps ++ concat qs
concat-append [] qs = refl
concat-append (p ∷ ps) qs = rw (concat-append ps qs) (sym (append_assoc p (concat ps) (concat qs)))

written :
    (chunks : List (List ℕ)) (left text : List ℕ)
    → concat chunks ++ left ≡ text
    → concat (chunks ++ truncate left ∷ []) ++ drop (length (truncate left)) left ≡ text
written chunks left text h =
    let rest = drop (length (truncate left)) left in
    ap (λ t. t ++ rest)
      (concat-append chunks (truncate left ∷ [])
        ∙ ap (λ t. concat chunks ++ t) (append-nil (truncate left)))
    ∙ append_assoc (concat chunks) (truncate left) rest
    ∙ ap (λ t. concat chunks ++ t) (truncate-front left)
    ∙ h

module _ {e : Aead} where
  -- The chunks carry what of the text is written, or is being written.
  data Sending (key salt text : List ℕ) (left : List ℕ) (x : Output e) : Type 0 where
    at_rest :
        (chunks : List (List ℕ))
        → Sends key salt chunks x
        → x.writer.state ≡ EncryptWriteState.assemble_packet
        → (x.writer.buffer ≡ []) ⊎ (left ≡ text)
        → AreShort chunks
        → concat chunks ++ left ≡ text
        → Sending key salt text left x
    amid :
        (chunks : List (List ℕ)) (pos : ℕ)
        → Sends key salt (chunks ++ truncate left ∷ []) x
        → x.writer.state ≡ EncryptWriteState.writing pos
        → pos ≤ length x.writer.buffer
        → 0 < length left
        → AreShort chunks
        → concat chunks ++ left ≡ text
        → Sending key salt text left x

  pub new-Sends :
      (key salt : List ℕ) (stream : List WriteEvent)
      → Sends key salt [] (starting e key salt stream)
  unfolding new
  new-Sends key salt stream = record { cipher_is = refl; bytes_are = sym (append-nil salt) }

  -- What is left after the polls, and that nothing is left after enough of them.
  abbrev Sent : ℕ → List ℕ → List ℕ → List ℕ → List ℕ → List WriteEvent → List ℕ × Output e → Type 0
  Sent polls key salt text left es r =
      Sending key salt text r.0 r.1
      × (WritesAreAlive es → length left + write_pendings es ≤ polls → r.0 ≡ [])

  go_on-Wrote :
      (polls : ℕ) (key salt text left : List ℕ) (chunks : List (List ℕ)) (es : List WriteEvent)
      (r : Poll (Result IoErrorKind ℕ) × Output e) (more : List ℕ → Output e → List ℕ × Output e)
      → 0 < length left
      → AreShort chunks
      → concat chunks ++ left ≡ text
      → ((left' : List ℕ) (y : Output e)
          → Sending key salt text left' y
          → Sent polls key salt text left' y.stream (more left' y))
      → Wrote key salt (chunks ++ truncate left ∷ []) (truncate left) es r
      → Sent (suc polls) key salt text left es (go_on e left r more)
  go_on-Wrote polls key salt text left chunks es (r, y) more some_left short parts next
        (Wrote.done is sends rest empty alive) =
      let n = length (truncate left) in
      let state =
        Sending.at_rest (chunks ++ truncate left ∷ []) sends rest (inl empty)
          (All-append (λ p. length p ≤ max_packet_size) chunks (truncate left ∷ []) short
            (length-truncate left, tt))
          (written chunks left text parts) in
      let (sending, all) = next (drop n left) y state in
      rw is (
        sending,
        λ lives h. all (alive lives).0 (
            omega (arith, (alive lives).1, length-drop n left, length-truncate_pos left some_left)),
      )
  go_on-Wrote polls key salt text left chunks es (r, y) more some_left short parts next
        (Wrote.waits pos is sends is' le alive) =
      let (sending, all) =
        next left y (Sending.amid chunks pos sends is' le some_left short parts) in
      rw is (sending, λ lives h. all (alive lives).0 (omega (arith, (alive lives).1)))
  go_on-Wrote polls key salt text left chunks es (r, y) more some_left short parts next
        (Wrote.fails pos k is sends is' le alive) =
      rw is (
        Sending.amid chunks pos sends is' le some_left short parts,
        λ lives h. absurd (alive lives),
      )

  send-Sent :
      (polls : ℕ) (key salt text left : List ℕ) (x : Output e)
      → Sending key salt text left x
      → Sent polls key salt text left x.stream (send e polls left x)
  send-Sent zero key salt text left x sending = (sending, λ lives h. no_bytes left (omega arith))
  send-Sent (suc polls) key salt text [] x sending = (sending, λ lives h. refl)
  send-Sent (suc polls) key salt text (b ∷ left) x (Sending.at_rest chunks sends is _ short parts) =
      go_on-Wrote polls key salt text (b ∷ left) chunks x.stream
        (poll_write_encrypted e (b ∷ left) x) (send e polls) (omega arith) short parts
        (send-Sent polls key salt text) (poll_at_rest key salt chunks (b ∷ left) x sends is)
  send-Sent (suc polls) key salt text (b ∷ left) x
        (Sending.amid chunks pos sends is le some_left short parts) =
      go_on-Wrote polls key salt text (b ∷ left) chunks x.stream
        (poll_write_encrypted e (b ∷ left) x) (send e polls) some_left short parts
        (send-Sent polls key salt text)
        (poll_amid key salt (chunks ++ truncate (b ∷ left) ∷ []) (b ∷ left) pos x sends is le)

  carried :
      {key salt text left : List ℕ} {x : Output e}
      → Sending key salt text left x
      → (chunks : List (List ℕ)) × (rest : List ℕ) × AreShort chunks
        × (x.sent ++ unsent x.writer.state x.writer.buffer ≡ salt ++ wire e (e.new key salt) chunks)
        × (concat chunks ++ rest ≡ text)
  carried {left = left} (Sending.at_rest chunks sends is _ short parts) =
      (chunks, left, short, sends.bytes_are, parts)
  carried {text = text} {left = left} (Sending.amid chunks pos sends is le some_left short parts) =
      (
        chunks ++ truncate left ∷ [],
        drop (length (truncate left)) left,
        All-append (λ p. length p ≤ max_packet_size) chunks (truncate left ∷ []) short
            (length-truncate left, tt),
        sends.bytes_are,
        written chunks left text parts,
      )

  ended :
      {key salt text left : List ℕ} {x : Output e}
      → 0 < length text
      → left ≡ []
      → Sending key salt text left x
      → (chunks : List (List ℕ)) × AreShort chunks
        × (x.sent ≡ salt ++ wire e (e.new key salt) chunks)
        × (concat chunks ≡ text)
  ended some_text all (Sending.at_rest chunks sends is (inr started) short parts) =
      absurd (omega (arith, ap length started, ap length all))
  ended {key} {salt} {text} {left} {x} some_text all
        (Sending.at_rest chunks sends is (inl empty) short parts) =
      let none_left : unsent x.writer.state x.writer.buffer ≡ [] =
        ap (λ s. unsent s x.writer.buffer) is ∙ empty in
      (
        chunks,
        short,
        sym (append-nil x.sent) ∙ ap (λ t. x.sent ++ t) (sym none_left) ∙ sends.bytes_are,
        sym (append-nil (concat chunks)) ∙ ap (λ t. concat chunks ++ t) (sym all) ∙ parts,
      )
  ended some_text all (Sending.amid chunks pos sends is le some_left short parts) =
      absurd (omega (arith, ap length all))

module _ (e : Aead) where
  starts :
      (key salt text : List ℕ) (stream : List WriteEvent)
      → Sending key salt text text (starting e key salt stream)
  starts key salt text stream =
      Sending.at_rest [] (new-Sends key salt stream) (unfold new in refl) (inr refl) tt refl

  -- At any time, whatever the stream does, what it has taken and what waits in the buffer are the salt
  -- and encrypted chunks, of at most 0x3FFF bytes each, that carry the first bytes of the text.
  pub send_lem :
      (polls : ℕ) (key salt text : List ℕ) (stream : List WriteEvent)
      → let x = (send e polls text (starting e key salt stream)).1 in
        (chunks : List (List ℕ)) × (rest : List ℕ) × AreShort chunks
        × (x.sent ++ unsent x.writer.state x.writer.buffer ≡ salt ++ wire e (e.new key salt) chunks)
        × (concat chunks ++ rest ≡ text)
  send_lem polls key salt text stream =
      carried
        (send-Sent polls key salt text text (starting e key salt stream)
          (starts key salt text stream)).0

  -- Over a stream that stays alive, as many polls as the text has bytes and the stream pauses write all
  -- of the text: the stream has taken the salt and the encrypted chunks that carry the text.
  pub send_all :
      (polls : ℕ) (key salt text : List ℕ) (stream : List WriteEvent)
      → 0 < length text
      → WritesAreAlive stream
      → length text + write_pendings stream ≤ polls
      → let (left, x) = send e polls text (starting e key salt stream) in
        (left ≡ [])
        × (chunks : List (List ℕ)) × AreShort chunks
        × (x.sent ≡ salt ++ wire e (e.new key salt) chunks)
        × (concat chunks ≡ text)
  send_all polls key salt text stream some_text alive enough =
      let (sending, all) =
        send-Sent polls key salt text text (starting e key salt stream)
          (starts key salt text stream) in
      let none_left = all alive enough in
      let (chunks, short, bytes, carries) = ended some_text none_left sending in
      (none_left, chunks, short, bytes, carries)

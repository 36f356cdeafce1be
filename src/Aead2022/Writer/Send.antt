-- ===== src/Aead2022/Writer/Send.antt =====
-- A caller that writes a text.
use mathlib.Core.List.{append_assoc, append-nil}
use mobile_android_obfuscati.Common.{
  ℕ, suc, ◌+◌, ◌≤◌, ◌<◌, ◌≡◌, refl, sym, ap, ◌∙◌, arith, List, [], ◌∷◌, ◌++◌, length, drop,
  length-drop, length-append, All-append,
}
use mobile_android_obfuscati.Common.{Result, ok, err, panic, IoErrorKind}
use mobile_android_obfuscati.Aead.Async.{Poll}
use mobile_android_obfuscati.Aead.Cipher.{Aead}
use mobile_android_obfuscati.Aead.Transport.{WriteEvent, WritesAreAlive, write_pendings}
use mobile_android_obfuscati.Aead.Wire.{concat}
use mobile_android_obfuscati.Aead.Reader.Receive.{no_bytes}
use mobile_android_obfuscati.Aead.Writer.Send.{concat-append}
use mobile_android_obfuscati.Aead2022.Identity.{Primitives}
use mobile_android_obfuscati.Aead2022.Wire.{Opening, AreShort, transcript}
use mobile_android_obfuscati.Aead2022.Writer.{
  max_packet_size, EncryptWriteState, Output, with_identity, truncate, poll_write_encrypted,
}
use mobile_android_obfuscati.Aead2022.Writer.Sends.{
  unsent, Sends, Wrote, length-truncate, truncate-front, length-truncate_pos, poll_at_start,
  poll_at_rest, poll_amid,
}

module _ (e : Aead) where
  -- `AsyncWriteExt::write_all` over so many polls: what is left of the text, and the output.
  abbrev pub go_on :
      List ℕ
      → Poll (Result IoErrorKind ℕ) × Output e
      → (List ℕ → Output e → List ℕ × Output e)
      → List ℕ × Output e
  go_on text (Poll.pending, x) more = more text x
  go_on text (Poll.ready (ok n), x) more = more (drop n text) x
  go_on text (Poll.ready (err k), x) more = (text, x)
  go_on text (Poll.ready panic, x) more = (text, x)

  -- One poll at each time.
  abbrev pub send : List ℕ → List ℕ → Output e → List ℕ × Output e
  send [] text x = (text, x)
  send (now ∷ polls) [] x = ([], x)
  send (now ∷ polls) (first ∷ text) x =
      go_on (first ∷ text) (poll_write_encrypted e now (first ∷ text) x) (send polls)

module _ (e : Aead) (b : Primitives) where
  -- A writer that is to send the opening; that of a server is given the salt of the request.
  abbrev pub starting : Opening → List WriteEvent → Output e
  starting o stream = record {
    writer = record (with_identity e b o.ty o.method o.key o.nonce o.identity_keys) {
      request_salt = o.request_salt;
    };
    stream = stream;
    sent = [];
  }

written :
    (chunks : List (List ℕ)) (left text : List ℕ)
    → concat chunks ++ left ≡ text
    → concat (chunks ++ truncate left ∷ []) ++ drop (length (truncate left)) left ≡ text
written chunks left text h =
    let rest = drop (length (truncate left)) left in
    ap (λ t. t ++ rest)
      (concat-append chunks (truncate left ∷ [])
        ∙ ap (λ t. concat chunks ++ t) (append-nil (truncate left)))
    ∙ append_assoc (concat chunks) (truncate left) rest
    ∙ ap (λ t. concat chunks ++ t) (truncate-front left)
    ∙ h

module _ {e : Aead} (b : Primitives) (o : Opening) where
  -- The chunks carry what of the text is written, or is being written.
  data Sending (text left : List ℕ) (x : Output e) : Type 0 where
    at_rest :
        (chunks : List (List ℕ))
        → Sends b o chunks x
        → x.writer.state ≡ EncryptWriteState.assemble_packet
        → 0 < length chunks
        → x.writer.buffer ≡ []
        → AreShort chunks
        → concat chunks ++ left ≡ text
        → Sending text left x
    amid :
        (chunks : List (List ℕ)) (pos : ℕ)
        → Sends b o (chunks ++ truncate left ∷ []) x
        → x.writer.state ≡ EncryptWriteState.writing pos
        → pos ≤ length x.writer.buffer
        → 0 < length left
        → AreShort chunks
        → concat chunks ++ left ≡ text
        → Sending text left x

  -- What is left after the polls, and that nothing is left after enough of them.
  abbrev Sent : ℕ → List ℕ → List ℕ → List WriteEvent → List ℕ × Output e → Type 0
  Sent polls text left es r =
      Sending text r.0 r.1
      × (WritesAreAlive es → length left + write_pendings es ≤ polls → r.0 ≡ [])

  go_on-Wrote :
      (polls : ℕ) (text left : List ℕ) (chunks : List (List ℕ)) (es : List WriteEvent)
      (r : Poll (Result IoErrorKind ℕ) × Output e) (more : List ℕ → Output e → List ℕ × Output e)
      → 0 < length left
      → AreShort chunks
      → concat chunks ++ left ≡ text
      → ((left' : List ℕ) (y : Output e)
          → Sending text left' y
          → Sent polls text left' y.stream (more left' y))
      → Wrote b o (chunks ++ truncate left ∷ []) (truncate left) es r
      → Sent (suc polls) text left es (go_on e left r more)
  go_on-Wrote polls text left chunks es (r, y) more some_left short parts next
        (Wrote.done is sends rest empty alive) =
      let n = length (truncate left) in
      let state =
        Sending.at_rest (chunks ++ truncate left ∷ []) sends rest
          (omega (arith, length-append chunks (truncate left ∷ []))) empty
          (All-append (λ p. length p ≤ max_packet_size) chunks (truncate left ∷ []) short
            (length-truncate left, tt))
          (written chunks left text parts) in
      let (sending, all) = next (drop n left) y state in
      rw is (
        sending,
        λ lives h. all (alive lives).0 (
            omega (arith, (alive lives).1, length-drop n left, length-truncate_pos left some_left)),
      )
  go_on-Wrote polls text left chunks es (r, y) more some_left short parts next
        (Wrote.waits pos is sends is' le alive) =
      let (sending, all) =
        next left y (Sending.amid chunks pos sends is' le some_left short parts) in
      rw is (sending, λ lives h. all (alive lives).0 (omega (arith, (alive lives).1)))
  go_on-Wrote polls text left chunks es (r, y) more some_left short parts next
        (Wrote.fails pos k is sends is' le alive) =
      rw is (
        Sending.amid chunks pos sends is' le some_left short parts,
        λ lives h. absurd (alive lives),
      )

  send-Sent :
      (polls text left : List ℕ) (x : Output e)
      → Sending text left x
      → Sent (length polls) text left x.stream (send e polls left x)
  send-Sent [] text left x sending = (sending, λ lives h. no_bytes left (omega arith))
  send-Sent (now ∷ polls) text [] x sending = (sending, λ lives h. refl)
  send-Sent (now ∷ polls) text (first ∷ left) x
        (Sending.at_rest chunks sends is some_chunks empty short parts) =
      go_on-Wrote (length polls) text (first ∷ left) chunks x.stream
        (poll_write_encrypted e now (first ∷ left) x) (send e polls) (omega arith) short parts
        (send-Sent polls text) (poll_at_rest b o now chunks (first ∷ left) x sends some_chunks is)
  send-Sent (now ∷ polls) text (first ∷ left) x
        (Sending.amid chunks pos sends is le some_left short parts) =
      go_on-Wrote (length polls) text (first ∷ left) chunks x.stream
        (poll_write_encrypted e now (first ∷ left) x) (send e polls) some_left short parts
        (send-Sent polls text)
        (poll_amid b o now (chunks ++ truncate (first ∷ left) ∷ []) (first ∷ left) pos x sends is
          le)

  starting-Sent :
      (polls text : List ℕ) (stream : List WriteEvent)
      → 0 < length text
      → Sent
          (suc (length polls))
          text
          text
          stream
          (send e (o.time ∷ polls) text (starting e b o stream))
  starting-Sent polls [] stream some_text = absurd (omega arith)
  starting-Sent polls (first ∷ text) stream some_text =
      let x = starting e b o stream in
      go_on-Wrote (length polls) (first ∷ text) (first ∷ text) [] stream
        (poll_write_encrypted e o.time (first ∷ text) x) (send e polls) some_text tt refl
        (send-Sent polls (first ∷ text))
        (poll_at_start b o (first ∷ text) x
          (record {
            cipher_is = unfold with_identity in refl;
            bytes_are = unfold with_identity in refl;
          })
          (unfold with_identity in refl) refl (unfold with_identity in refl))

  carried :
      {text left : List ℕ} {x : Output e}
      → Sending text left x
      → (chunks : List (List ℕ)) × (rest : List ℕ) × AreShort chunks
        × (x.sent ++ unsent x.writer.state x.writer.buffer ≡ (transcript e b o chunks).0)
        × (concat chunks ++ rest ≡ text)
  carried {left = left} (Sending.at_rest chunks sends is _ _ short parts) =
      (chunks, left, short, sends.bytes_are, parts)
  carried {text = text} {left = left} (Sending.amid chunks pos sends is le some_left short parts) =
      (
        chunks ++ truncate left ∷ [],
        drop (length (truncate left)) left,
        All-append (λ p. length p ≤ max_packet_size) chunks (truncate left ∷ []) short
            (length-truncate left, tt),
        sends.bytes_are,
        written chunks left text parts,
      )

  ended :
      {text left : List ℕ} {x : Output e}
      → left ≡ []
      → Sending text left x
      → (chunks : List (List ℕ)) × (0 < length chunks)
        × AreShort chunks
        × (x.sent ≡ (transcript e b o chunks).0)
        × (concat chunks ≡ text)
  ended {text} {left} {x} all (Sending.at_rest chunks sends is some_chunks empty short parts) =
      let none_left : unsent x.writer.state x.writer.buffer ≡ [] =
        ap (λ s. unsent s x.writer.buffer) is ∙ empty in
      (
        chunks,
        some_chunks,
        short,
        sym (append-nil x.sent) ∙ ap (λ t. x.sent ++ t) (sym none_left) ∙ sends.bytes_are,
        sym (append-nil (concat chunks)) ∙ ap (λ t. concat chunks ++ t) (sym all) ∙ parts,
      )
  ended all (Sending.amid chunks pos sends is le some_left short parts) =
      absurd (omega (arith, ap length all))

module _ (e : Aead) (b : Primitives) (o : Opening) where
  -- At any time after the first poll, whatever the stream does, what it has taken and what waits in the
  -- buffer are the opening and encrypted chunks, of at most 0xFFFF bytes each, that carry the first bytes
  -- of the text; the header has the time of the first poll.
  pub send_aead_2022_lem :
      (polls text : List ℕ) (stream : List WriteEvent)
      → 0 < length text
      → let x = (send e (o.time ∷ polls) text (starting e b o stream)).1 in
        (chunks : List (List ℕ)) × (rest : List ℕ) × AreShort chunks
        × (x.sent ++ unsent x.writer.state x.writer.buffer ≡ (transcript e b o chunks).0)
        × (concat chunks ++ rest ≡ text)
  send_aead_2022_lem polls text stream some_text =
      carried b o (starting-Sent b o polls text stream some_text).0

  -- Over a stream that stays alive, as many polls as the text has bytes and the stream pauses write all of
  -- the text.
  pub send_all_aead_2022 :
      (polls text : List ℕ) (stream : List WriteEvent)
      → 0 < length text
      → WritesAreAlive stream
      → length text + write_pendings stream ≤ suc (length polls)
      → let (left, x) = send e (o.time ∷ polls) text (starting e b o stream) in
        (left ≡ [])
        × (chunks : List (List ℕ)) × (0 < length chunks)
        × AreShort chunks
        × (x.sent ≡ (transcript e b o chunks).0)
        × (concat chunks ≡ text)
  send_all_aead_2022 polls text stream some_text alive enough =
      let (sending, all) = starting-Sent b o polls text stream some_text in
      let none_left = all alive enough in
      let (chunks, some_chunks, short, bytes, carries) = ended b o none_left sending in
      (none_left, chunks, some_chunks, short, bytes, carries)

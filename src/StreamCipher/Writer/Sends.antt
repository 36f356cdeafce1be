-- ===== src/StreamCipher/Writer/Sends.antt =====
-- A caller that writes buffers one after the other.
use mathlib.Core.List.{append_assoc, append-nil}
use mobile_android_obfuscati.Common.{
  ℕ, zero, suc, ◌≤◌, ◌<◌, ◌≡◌, inl, inr, refl, sym, subst, ap, ◌∙◌, arith, List, [], ◌∷◌, ◌++◌,
  length, drop,
}
use mobile_android_obfuscati.Common.{Result, ok, err, panic, IoErrorKind}
use mobile_android_obfuscati.Aead.Async.{Poll}
use mobile_android_obfuscati.Aead.Transport.{WriteEvent, WritesAreAlive, write_pendings}
use mobile_android_obfuscati.Aead.Wire.{concat}
use mobile_android_obfuscati.Aead.Reader.Steps.{drop_all}
use mobile_android_obfuscati.Aead.Writer.{drain}
use mobile_android_obfuscati.Aead.Writer.Drains.{Outcome, Drained, drain-Drained}
use mobile_android_obfuscati.StreamCipher.{StreamCipher}
use mobile_android_obfuscati.StreamCipher.Writer.{
  EncryptWriteState, Output, new, assemble, write_out, dispatch, poll_write_encrypted,
}

module _ (s : StreamCipher) where
  abbrev pub unless_pending :
      Poll (Result IoErrorKind ℕ) × Output s → (Output s → Output s) → Output s
  unless_pending (Poll.pending, x) again = again x
  unless_pending (Poll.ready outcome, x) again = x

  -- A write of one buffer: polls until it is over, at most so often.
  abbrev pub write : ℕ → List ℕ → Output s → Output s
  write zero buf x = x
  write (suc polls) buf x = unless_pending (poll_write_encrypted s buf x) (write polls buf)

  abbrev pub write_each : ℕ → List (List ℕ) → Output s → Output s
  write_each polls [] x = x
  write_each polls (buf ∷ bufs) x = write_each polls bufs (write polls buf x)

  abbrev pub starting : List ℕ → List ℕ → List WriteEvent → Output s
  starting key iv stream = record { writer = new s key iv; stream = stream; sent = [] }

module _ {s : StreamCipher} where
  -- The writer has written `text`, up to the bytes `left`.
  record Wrote (key iv text left : List ℕ) (x : Output s) : Type 0 where
    pub cipher_is : x.writer.cipher ≡ (s.encrypt_packet (s.new key iv) text).1
    pub bytes_are : x.sent ++ left ≡ iv ++ (s.encrypt_packet (s.new key iv) text).0

  -- Between two writes.
  data Rested (key iv text : List ℕ) (p : ℕ) (x : Output s) : Type 0 where
    rested :
        x.writer.state ≡ EncryptWriteState.assemble_packet
        → Wrote key iv text x.writer.buffer x
        → WritesAreAlive x.stream
        → write_pendings x.stream ≤ p
        → Rested key iv text p x

  -- After a write.
  abbrev Finished : List ℕ → List ℕ → List ℕ → ℕ → Output s → Type 0
  Finished key iv text p x = Rested key iv text p x × (x.writer.buffer ≡ [])

  assembled :
      (key iv text buf : List ℕ) (x : Output s)
      → Wrote key iv text x.writer.buffer x
      → Wrote key iv
          (text ++ buf)
          (assemble s buf x.writer).buffer
          (record x { writer = assemble s buf x.writer })
  unfolding assemble
  assembled key iv text buf x wrote =
      let c0 = s.new key iv in
      let both = s.encrypt_packet-append c0 text buf in
      let m = s.encrypt_packet x.writer.cipher buf in
      let same : m ≡ s.encrypt_packet (s.encrypt_packet c0 text).1 buf =
        ap (λ k. s.encrypt_packet k buf) wrote.cipher_is in
      record {
        cipher_is = ap (λ r. r.1) same ∙ sym (ap (λ r. r.1) both);
        bytes_are =
            sym (append_assoc x.sent x.writer.buffer m.0)
            ∙ ap (λ t. t ++ m.0) wrote.bytes_are
            ∙ append_assoc iv (s.encrypt_packet c0 text).0 m.0
            ∙ ap (λ t. iv ++ ((s.encrypt_packet c0 text).0 ++ t)) (ap (λ r. r.0) same)
            ∙ ap (λ t. iv ++ t) (sym (ap (λ r. r.0) both));
      }

  -- A poll that writes out is followed by enough polls.
  write_out-Finished :
      (polls pos p : ℕ) (key iv text buf : List ℕ) (x : Output s) (o : Outcome)
      → drain x.writer.buffer pos x.stream x.sent ≡ o
      → Drained x.writer.buffer (iv ++ (s.encrypt_packet (s.new key iv) text).0) x.stream o
      → x.writer.cipher ≡ (s.encrypt_packet (s.new key iv) text).1
      → WritesAreAlive x.stream
      → write_pendings x.stream ≤ polls
      → write_pendings x.stream ≤ p
      → ((pos' : ℕ) (y : Output s)
          → y.writer.state ≡ EncryptWriteState.writing pos'
          → Wrote key iv text (drop pos' y.writer.buffer) y
          → pos' ≤ length y.writer.buffer
          → WritesAreAlive y.stream
          → write_pendings y.stream < polls
          → write_pendings y.stream ≤ p
          → Finished key iv text p (write s polls buf y))
      → Finished key iv text p (unless_pending s (write_out s buf pos x) (write s polls buf))
  unfolding write_out
  write_out-Finished polls pos p key iv text buf x (Poll.pending, pos', es, sent) is drains cipher
        alive enough few next =
      elim (drains.progress alive).1 [
        | inl (_, less) ↦
            let y : Output s = record {
              writer = record x.writer { state = EncryptWriteState.writing pos' };
              stream = es;
              sent = sent;
            } in
            rw is (
              next pos' y refl (record { cipher_is = cipher; bytes_are = drains.conserves })
                drains.in_range (drains.progress alive).0 (omega arith) (omega arith))
        | inr (over, _) ↦ absurd (ground arith)
      ]
  write_out-Finished polls pos p key iv text buf x (Poll.ready (ok tt), pos', es, sent) is drains
        cipher alive enough few next =
      elim (drains.progress alive).1 [
        | inl (waiting, _) ↦ absurd (ground arith)
        | inr (_, less) ↦
            let none_left = drop_all pos' x.writer.buffer (drains.done refl) in
            let all = ap (λ b. sent ++ b) (sym none_left) ∙ drains.conserves in
            rw is (
              Rested.rested refl (record { cipher_is = cipher; bytes_are = all })
                  (drains.progress alive).0 (omega arith),
              refl,
            )
      ]
  write_out-Finished polls pos p key iv text buf x (Poll.ready (err k), pos', es, sent) is drains
        cipher alive enough few next =
      absurd
        (elim (drains.progress alive).1 [ inl (w, _) ↦ ground arith | inr (w, _) ↦ ground arith ])
  write_out-Finished polls pos p key iv text buf x (Poll.ready panic, pos', es, sent) is drains
        cipher alive enough few next =
      absurd (drains.calm refl)

  -- The bytes of the text that wait are written by enough polls.
  write-amid :
      (polls pos p : ℕ) (key iv text buf : List ℕ) (x : Output s)
      → x.writer.state ≡ EncryptWriteState.writing pos
      → Wrote key iv text (drop pos x.writer.buffer) x
      → pos ≤ length x.writer.buffer
      → WritesAreAlive x.stream
      → write_pendings x.stream < polls
      → write_pendings x.stream ≤ p
      → Finished key iv text p (write s polls buf x)
  unfolding poll_write_encrypted
  write-amid zero pos p key iv text buf x is wrote le alive enough few = absurd (omega arith)
  write-amid (suc polls) pos p key iv text buf x is wrote le alive enough few =
      subst
        (λ state.
          Finished key iv text p (unless_pending s (dispatch s buf state x) (write s polls buf)))
        (sym is)
        (write_out-Finished polls pos p key iv text buf x
          (drain x.writer.buffer pos x.stream x.sent) refl
          (subst
            (λ w. Drained x.writer.buffer w x.stream (drain x.writer.buffer pos x.stream x.sent))
            wrote.bytes_are (drain-Drained x.writer.buffer pos x.stream x.sent le))
          wrote.cipher_is alive (omega arith) few
          (λ pos' y is' wrote' le' alive' enough' few'.
            write-amid polls pos' p key iv text buf y is' wrote' le' alive' enough' few'))

  write-Finished :
      (polls p : ℕ) (key iv text buf : List ℕ) (x : Output s)
      → Rested key iv text p x
      → p < polls
      → Finished key iv (text ++ buf) p (write s polls buf x)
  unfolding poll_write_encrypted
  write-Finished zero p key iv text buf x _ enough = absurd (omega arith)
  write-Finished (suc polls) p key iv text buf x (Rested.rested is wrote alive few) enough =
      let y : Output s = record x { writer = assemble s buf x.writer } in
      let wrote' = assembled key iv text buf x wrote in
      let bytes : Drained y.writer.buffer (iv ++ (s.encrypt_packet (s.new key iv) (text ++ buf)).0)
          x.stream (drain y.writer.buffer 0 x.stream x.sent) =
        subst (λ w. Drained y.writer.buffer w x.stream (drain y.writer.buffer 0 x.stream x.sent))
          wrote'.bytes_are (drain-Drained y.writer.buffer 0 x.stream x.sent (omega arith)) in
      subst
        (λ state.
          Finished key iv (text ++ buf) p
            (unless_pending s (dispatch s buf state x) (write s polls buf)))
        (sym is)
        (write_out-Finished polls 0 p key iv (text ++ buf) buf y
          (drain y.writer.buffer 0 x.stream x.sent) refl bytes wrote'.cipher_is alive (omega arith)
          few
          (λ pos' z is' wrote'' le' alive' enough' few'.
            write-amid polls pos' p key iv (text ++ buf) buf z is' wrote'' le' alive' enough' few'))

  write_each-Rested :
      (polls p : ℕ) (key iv text : List ℕ) (bufs : List (List ℕ)) (x : Output s)
      → Finished key iv text p x
      → p < polls
      → Finished key iv (text ++ concat bufs) p (write_each s polls bufs x)
  write_each-Rested polls p key iv text [] x finished enough = rw (append-nil text) finished
  write_each-Rested polls p key iv text (buf ∷ bufs) x finished enough =
      rw (← append_assoc text buf (concat bufs)) (
        write_each-Rested polls p key iv (text ++ buf) bufs (write s polls buf x)
          (write-Finished polls p key iv text buf x finished.0 enough) enough)

module _ (s : StreamCipher) where
  -- Over a stream that stays alive, buffers that are written one after the other, each with more polls
  -- than the stream has pauses, leave with the stream the initialisation vector and all their bytes, in
  -- order, encrypted as one text.
  pub sent-write_each :
      (polls : ℕ) (key iv buf : List ℕ) (bufs : List (List ℕ)) (stream : List WriteEvent)
      → WritesAreAlive stream
      → write_pendings stream < polls
      → (write_each s polls (buf ∷ bufs) (starting s key iv stream)).sent
        ≡ iv ++ (s.encrypt_packet (s.new key iv) (buf ++ concat bufs)).0
  sent-write_each polls key iv buf bufs stream alive enough =
      let x = starting s key iv stream in
      let c0 = s.new key iv in
      let nil = s.encrypt_packet-nil c0 in
      let rest : Rested key iv [] (write_pendings stream) x =
        unfold new in
        Rested.rested refl
          (record {
            cipher_is = ap (λ r. r.1) (sym nil);
            bytes_are = sym (append-nil iv) ∙ ap (λ r. iv ++ r.0) (sym nil);
          })
          alive (omega arith) in
      let first = write-Finished polls (write_pendings stream) key iv [] buf x rest enough in
      over (
        write_each-Rested polls (write_pendings stream) key iv buf bufs (write s polls buf x) first
          enough)
    where
      over :
          {text : List ℕ} {p : ℕ} {y : Output s}
          → Finished key iv text p y
          → y.sent ≡ iv ++ (s.encrypt_packet (s.new key iv) text).0
      over {y = y} (Rested.rested is wrote lives few, empty) =
          sym (append-nil y.sent) ∙ ap (λ b. y.sent ++ b) (sym empty) ∙ wrote.bytes_are

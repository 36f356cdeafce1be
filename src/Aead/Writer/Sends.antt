-- ===== src/Aead/Writer/Sends.antt =====
-- What a writer has sent, and has yet to send, after each poll.
use mathlib.Core.List.{append_assoc, append-nil}
use mobile_android_obfuscati.Common.{
  ℕ, ◌%◌, ◌≤◌, ◌<◌, ◌≡◌, refl, sym, subst, ap, ◌∙◌, arith, ltb, dec_lt, false, true, List, [], ◌∷◌,
  ◌++◌, length, take, drop, length-take, take-append-drop, if◌then◌else◌,
}
use mobile_android_obfuscati.Common.{Result, ok, err, panic, IoErrorKind}
use mobile_android_obfuscati.Common.Bytes.{be_bytes}
use mobile_android_obfuscati.Aead.Async.{Poll}
use mobile_android_obfuscati.Aead.Cipher.{Aead}
use mobile_android_obfuscati.Aead.Transport.{WriteEvent, WritesAreAlive, write_pendings}
use mobile_android_obfuscati.Aead.Wire.{wire, after, wire-append, after-append}
use mobile_android_obfuscati.Aead.Reader.{max_packet_size}
use mobile_android_obfuscati.Aead.Reader.Steps.{drop_all}
use mobile_android_obfuscati.Aead.Writer.{
  EncryptWriteState, Output, assemble, drain, write_out, dispatch, truncate, poll_write_encrypted,
}
use mobile_android_obfuscati.Aead.Writer.Drains.{Outcome, Drained, drain-Drained}

abbrev pub unsent : EncryptWriteState → List ℕ → List ℕ
unsent EncryptWriteState.assemble_packet buffer = buffer
unsent (EncryptWriteState.writing pos) buffer = drop pos buffer

pub length_short :
    (n : ℕ) (buf : List ℕ) → length (if ltb n (length buf) then take n buf else buf) ≤ n
length_short n buf = ground (arith, length-take n buf)

pub length-truncate : (buf : List ℕ) → length (truncate buf) ≤ max_packet_size
unfolding truncate
length-truncate buf = length_short max_packet_size buf

pub front :
    (n : ℕ) (buf : List ℕ)
    → (if ltb n (length buf) then take n buf else buf)
        ++ drop (length (if ltb n (length buf) then take n buf else buf)) buf
      ≡ buf
front n buf = elim (dec_lt n (length buf)) [
  | yes long ↦
      let cut : ltb n (length buf) ≡ true = ground arith in
      let size : length (take n buf) ≡ n = omega (arith, length-take n buf) in
      rw (cut, size) (take-append-drop n buf)
  | no short ↦
      let whole : ltb n (length buf) ≡ false = ground arith in
      rw (whole, drop_all (length buf) buf (omega arith), append-nil buf)
]

pub truncate-front : (buf : List ℕ) → truncate buf ++ drop (length (truncate buf)) buf ≡ buf
unfolding truncate
truncate-front buf = front max_packet_size buf

pub some_front :
    (n : ℕ) (buf : List ℕ)
    → 0 < n
    → 0 < length buf
    → 0 < length (if ltb n (length buf) then take n buf else buf)
some_front n buf some_room some_bytes = ground (arith, length-take n buf)

pub length-truncate_pos : (buf : List ℕ) → 0 < length buf → 0 < length (truncate buf)
unfolding truncate
length-truncate_pos buf some_bytes = some_front max_packet_size buf (omega arith) some_bytes

module _ {e : Aead} where
  -- The chunks that the writer has sent or is about to send.
  pub record Sends (key salt : List ℕ) (chunks : List (List ℕ)) (x : Output e) : Type 0 where
    pub cipher_is : x.writer.cipher ≡ after e (e.new key salt) chunks
    pub bytes_are :
        x.sent ++ unsent x.writer.state x.writer.buffer ≡ salt ++ wire e (e.new key salt) chunks

  -- What a poll comes to that writes the buffer `buf` out.
  pub data Wrote (key salt : List ℕ) (chunks : List (List ℕ)) (buf : List ℕ) (es : List WriteEvent)
      (r : Poll (Result IoErrorKind ℕ) × Output e) : Type 0 where
    done :
        r.0 ≡ Poll.ready (ok (length buf))
        → Sends key salt chunks r.1
        → r.1.writer.state ≡ EncryptWriteState.assemble_packet
        → r.1.writer.buffer ≡ []
        → (WritesAreAlive es
            → WritesAreAlive r.1.stream × (write_pendings r.1.stream ≤ write_pendings es))
        → Wrote key salt chunks buf es r
    waits :
        (pos : ℕ)
        → r.0 ≡ Poll.pending
        → Sends key salt chunks r.1
        → r.1.writer.state ≡ EncryptWriteState.writing pos
        → pos ≤ length r.1.writer.buffer
        → (WritesAreAlive es
            → WritesAreAlive r.1.stream × (write_pendings r.1.stream < write_pendings es))
        → Wrote key salt chunks buf es r
    fails :
        (pos : ℕ) (failure : IoErrorKind)
        → r.0 ≡ Poll.ready (err failure)
        → Sends key salt chunks r.1
        → r.1.writer.state ≡ EncryptWriteState.writing pos
        → pos ≤ length r.1.writer.buffer
        → (WritesAreAlive es → ⊥)
        → Wrote key salt chunks buf es r

  write_out-Wrote_of :
      (key salt : List ℕ) (chunks : List (List ℕ)) (buf : List ℕ) (pos : ℕ) (x : Output e)
      (o : Outcome)
      → drain x.writer.buffer pos x.stream x.sent ≡ o
      → Drained x.writer.buffer (salt ++ wire e (e.new key salt) chunks) x.stream o
      → x.writer.cipher ≡ after e (e.new key salt) chunks
      → Wrote key salt chunks buf x.stream (write_out e buf pos x)
  unfolding write_out
  write_out-Wrote_of key salt chunks buf pos x (Poll.pending, pos', es, sent) is drains cipher =
      rw is (
        Wrote.waits pos' refl (record { cipher_is = cipher; bytes_are = drains.conserves }) refl
          drains.in_range (λ alive. ground (arith, drains.progress alive)))
  write_out-Wrote_of key salt chunks buf pos x (Poll.ready (ok tt), pos', es, sent) is drains
        cipher =
      let none_left = drop_all pos' x.writer.buffer (drains.done refl) in
      let all : sent ++ [] ≡ salt ++ wire e (e.new key salt) chunks =
        ap (λ b. sent ++ b) (sym none_left) ∙ drains.conserves in
      rw is (
        Wrote.done refl (record { cipher_is = cipher; bytes_are = all }) refl refl
          (λ alive. ground (arith, drains.progress alive)))
  write_out-Wrote_of key salt chunks buf pos x (Poll.ready (err k), pos', es, sent) is drains
        cipher =
      rw is (
        Wrote.fails pos' k refl (record { cipher_is = cipher; bytes_are = drains.conserves }) refl
          drains.in_range (λ alive. ground (arith, drains.progress alive)))
  write_out-Wrote_of key salt chunks buf pos x (Poll.ready panic, pos', es, sent) is drains cipher =
      absurd (drains.calm refl)

  pub write_out-Wrote :
      (key salt : List ℕ) (chunks : List (List ℕ)) (buf : List ℕ) (pos : ℕ) (x : Output e)
      → x.writer.cipher ≡ after e (e.new key salt) chunks
      → x.sent ++ drop pos x.writer.buffer ≡ salt ++ wire e (e.new key salt) chunks
      → pos ≤ length x.writer.buffer
      → Wrote key salt chunks buf x.stream (write_out e buf pos x)
  write_out-Wrote key salt chunks buf pos x cipher bytes le =
      write_out-Wrote_of key salt chunks buf pos x (drain x.writer.buffer pos x.stream x.sent) refl
        (subst (λ w. Drained x.writer.buffer w x.stream (drain x.writer.buffer pos x.stream x.sent))
          bytes (drain-Drained x.writer.buffer pos x.stream x.sent le))
        cipher

  -- A packet is assembled behind what the buffer holds.
  assembled :
      (key salt : List ℕ) (chunks : List (List ℕ)) (buf : List ℕ) (x : Output e)
      → length buf ≤ max_packet_size
      → x.writer.cipher ≡ after e (e.new key salt) chunks
      → x.sent ++ x.writer.buffer ≡ salt ++ wire e (e.new key salt) chunks
      → ((assemble e buf x.writer).cipher ≡ after e (e.new key salt) (chunks ++ buf ∷ []))
        × (x.sent ++ (assemble e buf x.writer).buffer
            ≡ salt ++ wire e (e.new key salt) (chunks ++ buf ∷ []))
  unfolding assemble
  assembled key salt chunks buf x short cipher bytes =
      let c0 = e.new key salt in
      let fits : length buf % 65536 ≡ length buf = omega arith in
      let a = e.encrypt_packet x.writer.cipher (be_bytes (length buf)) in
      let b = e.encrypt_packet a.1 buf in
      let behind : x.sent ++ ((x.writer.buffer ++ a.0) ++ b.0)
          ≡ (x.sent ++ x.writer.buffer) ++ (a.0 ++ b.0) =
        ap (λ t. x.sent ++ t) (append_assoc x.writer.buffer a.0 b.0)
        ∙ sym (append_assoc x.sent x.writer.buffer (a.0 ++ b.0)) in
      let chunk : a.0 ++ b.0 ≡ wire e (after e c0 chunks) (buf ∷ []) =
        sym (append-nil (a.0 ++ b.0)) ∙ ap (λ c. wire e c (buf ∷ [])) cipher in
      (
        rw (fits, after-append e c0 chunks (buf ∷ []), cipher) refl,
        rw fits (
            behind
            ∙ ap (λ t. t ++ (a.0 ++ b.0)) bytes
            ∙ append_assoc salt (wire e c0 chunks) (a.0 ++ b.0)
            ∙ ap (λ t. salt ++ (wire e c0 chunks ++ t)) chunk
            ∙ ap (λ t. salt ++ t) (sym (wire-append e c0 chunks (buf ∷ [])))),
      )

  -- A poll in the state that assembles sends one more chunk.
  pub poll_at_rest :
      (key salt : List ℕ) (chunks : List (List ℕ)) (buf : List ℕ) (x : Output e)
      → Sends key salt chunks x
      → x.writer.state ≡ EncryptWriteState.assemble_packet
      → Wrote key salt
          (chunks ++ truncate buf ∷ [])
          (truncate buf)
          x.stream
          (poll_write_encrypted e buf x)
  unfolding poll_write_encrypted
  poll_at_rest key salt chunks buf x sends is =
      let y = record x { writer = assemble e (truncate buf) x.writer } in
      let bytes =
        subst (λ st. x.sent ++ unsent st x.writer.buffer ≡ salt ++ wire e (e.new key salt) chunks)
          is sends.bytes_are in
      let (cipher, after_it) =
        assembled key salt chunks (truncate buf) x (length-truncate buf) sends.cipher_is bytes in
      subst
        (λ st.
          Wrote key salt (chunks ++ truncate buf ∷ []) (truncate buf) x.stream
            (dispatch e (truncate buf) st x))
        (sym is)
        (write_out-Wrote key salt (chunks ++ truncate buf ∷ []) (truncate buf) 0 y cipher after_it
          (omega arith))

  -- A poll in the state that writes goes on with the packet that is assembled.
  pub poll_amid :
      (key salt : List ℕ) (chunks : List (List ℕ)) (buf : List ℕ) (pos : ℕ) (x : Output e)
      → Sends key salt chunks x
      → x.writer.state ≡ EncryptWriteState.writing pos
      → pos ≤ length x.writer.buffer
      → Wrote key salt chunks (truncate buf) x.stream (poll_write_encrypted e buf x)
  unfolding poll_write_encrypted
  poll_amid key salt chunks buf pos x sends is le =
      let bytes =
        subst (λ st. x.sent ++ unsent st x.writer.buffer ≡ salt ++ wire e (e.new key salt) chunks)
          is sends.bytes_are in
      subst (λ st. Wrote key salt chunks (truncate buf) x.stream (dispatch e (truncate buf) st x))
        (sym is) (write_out-Wrote key salt chunks (truncate buf) pos x sends.cipher_is bytes le)

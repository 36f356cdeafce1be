-- ===== src/Aead2022/Writer/Sends.antt =====
-- What a writer has sent, and has yet to send, after each poll.
use mathlib.Core.List.{append_assoc, append-nil}
use mobile_android_obfuscati.Common.{
  ℕ, ◌%◌, ◌≤◌, ◌<◌, ◌≡◌, refl, sym, subst, ap, ◌∙◌, arith, List, [], ◌∷◌, ◌++◌, length, drop,
}
use mobile_android_obfuscati.Common.{Result, ok, err, panic, IoErrorKind}
use mobile_android_obfuscati.Common.Bytes.{be_bytes}
use mobile_android_obfuscati.Aead.Async.{Poll}
use mobile_android_obfuscati.Aead.Cipher.{Aead}
use mobile_android_obfuscati.Aead.Transport.{WriteEvent, WritesAreAlive, write_pendings}
use mobile_android_obfuscati.Aead.Reader.Steps.{drop_all}
use mobile_android_obfuscati.Aead.Writer.{drain}
use mobile_android_obfuscati.Aead.Writer.Drains.{Outcome, Drained, drain-Drained}
use mobile_android_obfuscati.Aead.Writer.Sends.{length_short, front, some_front}
use mobile_android_obfuscati.Aead2022.Identity.{Primitives}
use mobile_android_obfuscati.Aead2022.Header.{make_header}
use mobile_android_obfuscati.Aead2022.Wire.{Opening, transcript, transcript-append, header_of}
use mobile_android_obfuscati.Aead2022.Writer.{
  max_packet_size, EncryptWriteState, Output, assemble_first, assemble, write_out, dispatch,
  truncate, poll_write_encrypted,
}

abbrev pub unsent : EncryptWriteState → List ℕ → List ℕ
unsent EncryptWriteState.assemble_header buffer = buffer
unsent EncryptWriteState.assemble_packet buffer = buffer
unsent (EncryptWriteState.writing pos) buffer = drop pos buffer

pub length-truncate : (buf : List ℕ) → length (truncate buf) ≤ max_packet_size
unfolding truncate
length-truncate buf = length_short max_packet_size buf

pub truncate-front : (buf : List ℕ) → truncate buf ++ drop (length (truncate buf)) buf ≡ buf
unfolding truncate
truncate-front buf = front max_packet_size buf

pub length-truncate_pos : (buf : List ℕ) → 0 < length buf → 0 < length (truncate buf)
unfolding truncate
length-truncate_pos buf some_bytes = some_front max_packet_size buf (omega arith) some_bytes

behind : (sent buffer a d : List ℕ) → sent ++ ((buffer ++ a) ++ d) ≡ (sent ++ buffer) ++ (a ++ d)
behind sent buffer a d =
    ap (λ t. sent ++ t) (append_assoc buffer a d) ∙ sym (append_assoc sent buffer (a ++ d))

module _ {e : Aead} (b : Primitives) (o : Opening) where
  -- The chunks that the writer has sent or is about to send.
  pub record Sends (chunks : List (List ℕ)) (x : Output e) : Type 0 where
    pub cipher_is : x.writer.cipher ≡ (transcript e b o chunks).1
    pub bytes_are : x.sent ++ unsent x.writer.state x.writer.buffer ≡ (transcript e b o chunks).0

  -- What a poll comes to that writes the buffer `buf` out.
  pub data Wrote (chunks : List (List ℕ)) (buf : List ℕ) (es : List WriteEvent)
      (r : Poll (Result IoErrorKind ℕ) × Output e) : Type 0 where
    done :
        r.0 ≡ Poll.ready (ok (length buf))
        → Sends chunks r.1
        → r.1.writer.state ≡ EncryptWriteState.assemble_packet
        → r.1.writer.buffer ≡ []
        → (WritesAreAlive es
            → WritesAreAlive r.1.stream × (write_pendings r.1.stream ≤ write_pendings es))
        → Wrote chunks buf es r
    waits :
        (pos : ℕ)
        → r.0 ≡ Poll.pending
        → Sends chunks r.1
        → r.1.writer.state ≡ EncryptWriteState.writing pos
        → pos ≤ length r.1.writer.buffer
        → (WritesAreAlive es
            → WritesAreAlive r.1.stream × (write_pendings r.1.stream < write_pendings es))
        → Wrote chunks buf es r
    fails :
        (pos : ℕ) (failure : IoErrorKind)
        → r.0 ≡ Poll.ready (err failure)
        → Sends chunks r.1
        → r.1.writer.state ≡ EncryptWriteState.writing pos
        → pos ≤ length r.1.writer.buffer
        → (WritesAreAlive es → ⊥)
        → Wrote chunks buf es r

  write_out-Wrote_of :
      (chunks : List (List ℕ)) (buf : List ℕ) (pos : ℕ) (x : Output e) (r : Outcome)
      → drain x.writer.buffer pos x.stream x.sent ≡ r
      → Drained x.writer.buffer ((transcript e b o chunks).0) x.stream r
      → x.writer.cipher ≡ (transcript e b o chunks).1
      → Wrote chunks buf x.stream (write_out e buf pos x)
  unfolding write_out
  write_out-Wrote_of chunks buf pos x (Poll.pending, pos', es, sent) is drains cipher = rw is (
      Wrote.waits pos' refl (record { cipher_is = cipher; bytes_are = drains.conserves }) refl
        drains.in_range (λ alive. ground (arith, drains.progress alive)))
  write_out-Wrote_of chunks buf pos x (Poll.ready (ok tt), pos', es, sent) is drains cipher =
      let none_left = drop_all pos' x.writer.buffer (drains.done refl) in
      let all : sent ++ [] ≡ (transcript e b o chunks).0 =
        ap (λ b. sent ++ b) (sym none_left) ∙ drains.conserves in
      rw is (
        Wrote.done refl (record { cipher_is = cipher; bytes_are = all }) refl refl
          (λ alive. ground (arith, drains.progress alive)))
  write_out-Wrote_of chunks buf pos x (Poll.ready (err k), pos', es, sent) is drains cipher =
      rw is (
        Wrote.fails pos' k refl (record { cipher_is = cipher; bytes_are = drains.conserves }) refl
          drains.in_range (λ alive. ground (arith, drains.progress alive)))
  write_out-Wrote_of chunks buf pos x (Poll.ready panic, pos', es, sent) is drains cipher =
      absurd (drains.calm refl)

  pub write_out-Wrote :
      (chunks : List (List ℕ)) (buf : List ℕ) (pos : ℕ) (x : Output e)
      → x.writer.cipher ≡ (transcript e b o chunks).1
      → x.sent ++ drop pos x.writer.buffer ≡ (transcript e b o chunks).0
      → pos ≤ length x.writer.buffer
      → Wrote chunks buf x.stream (write_out e buf pos x)
  write_out-Wrote chunks buf pos x cipher bytes le =
      write_out-Wrote_of chunks buf pos x (drain x.writer.buffer pos x.stream x.sent) refl
        (subst (λ w. Drained x.writer.buffer w x.stream (drain x.writer.buffer pos x.stream x.sent))
          bytes (drain-Drained x.writer.buffer pos x.stream x.sent le))
        cipher

  -- A packet is assembled behind what the buffer holds.
  assembled :
      (chunks : List (List ℕ)) (buf : List ℕ) (x : Output e)
      → 0 < length chunks
      → length buf ≤ max_packet_size
      → x.writer.cipher ≡ (transcript e b o chunks).1
      → x.sent ++ x.writer.buffer ≡ (transcript e b o chunks).0
      → ((assemble e buf x.writer).cipher ≡ (transcript e b o (chunks ++ buf ∷ [])).1)
        × (x.sent ++ (assemble e buf x.writer).buffer ≡ (transcript e b o (chunks ++ buf ∷ [])).0)
  unfolding assemble
  assembled chunks buf x some_chunks short cipher bytes =
      let fits : length buf % 65536 ≡ length buf = omega arith in
      let next = transcript-append e b o chunks buf some_chunks in
      let a = e.encrypt_packet x.writer.cipher (be_bytes (length buf)) in
      let d = e.encrypt_packet a.1 buf in
      (
        rw (fits, cipher) (ap (λ t. t.1) (sym next)),
        rw fits (
            behind x.sent x.writer.buffer a.0 d.0
            ∙ ap (λ t. t ++ (a.0 ++ d.0)) bytes
            ∙ ap
                (λ k.
                  let a = e.encrypt_packet k (be_bytes (length buf)) in
                  (transcript e b o chunks).0 ++ (a.0 ++ (e.encrypt_packet a.1 buf).0))
                cipher
            ∙ ap (λ t. t.0) (sym next)),
      )

  -- The header and the first packet are assembled behind the salt.
  assembled_first :
      (buf : List ℕ) (x : Output e)
      → x.writer.stream_ty ≡ o.ty
      → x.writer.request_salt ≡ o.request_salt
      → x.writer.cipher ≡ (transcript e b o []).1
      → x.sent ++ x.writer.buffer ≡ (transcript e b o []).0
      → ((assemble_first e o.time buf x.writer).cipher ≡ (transcript e b o (buf ∷ [])).1)
        × (x.sent ++ (assemble_first e o.time buf x.writer).buffer
            ≡ (transcript e b o (buf ∷ [])).0)
  unfolding assemble_first
  assembled_first buf x ty salt cipher bytes =
      let n = length buf in
      let header = make_header x.writer.stream_ty o.time x.writer.request_salt n in
      let same : header ≡ make_header o.ty o.time o.request_salt n =
        ap (λ t. make_header t o.time x.writer.request_salt n) ty
        ∙ ap (λ t. make_header o.ty o.time t n) salt in
      let h = header_of e b o n in
      let d = (e.encrypt_packet h.1 buf).0 in
      let start = (transcript e b o []).0 in
      let part =
        (e.encrypt_packet (e.new o.key o.nonce) (make_header o.ty o.time o.request_salt n)).0 in
      let a = e.encrypt_packet x.writer.cipher header in
      (
        ap (λ t. (e.encrypt_packet (e.encrypt_packet x.writer.cipher t).1 buf).1) same
            ∙ ap
                (λ k.
                  (e.encrypt_packet
                    (e.encrypt_packet k (make_header o.ty o.time o.request_salt n)).1 buf).1)
                cipher,
        behind x.sent x.writer.buffer a.0 (e.encrypt_packet a.1 buf).0
            ∙ ap (λ t. t ++ (a.0 ++ (e.encrypt_packet a.1 buf).0)) bytes
            ∙ ap
                (λ t.
                  let a = e.encrypt_packet x.writer.cipher t in
                  start ++ (a.0 ++ (e.encrypt_packet a.1 buf).0))
                same
            ∙ ap
                (λ k.
                  let a = e.encrypt_packet k (make_header o.ty o.time o.request_salt n) in
                  start ++ (a.0 ++ (e.encrypt_packet a.1 buf).0))
                cipher
            ∙ sym (append_assoc start part d)
            ∙ ap (λ t. (start ++ part) ++ t) (sym (append-nil d)),
      )

  -- The first poll sends the header and the first chunk.
  pub poll_at_start :
      (buf : List ℕ) (x : Output e)
      → Sends [] x
      → x.writer.stream_ty ≡ o.ty
      → x.writer.request_salt ≡ o.request_salt
      → x.writer.state ≡ EncryptWriteState.assemble_header
      → Wrote (truncate buf ∷ []) (truncate buf) x.stream (poll_write_encrypted e o.time buf x)
  unfolding poll_write_encrypted
  poll_at_start buf x sends ty salt is =
      let y = record x { writer = assemble_first e o.time (truncate buf) x.writer } in
      let bytes =
        subst (λ st. x.sent ++ unsent st x.writer.buffer ≡ (transcript e b o []).0) is
          sends.bytes_are in
      let (cipher, after_it) = assembled_first (truncate buf) x ty salt sends.cipher_is bytes in
      subst
        (λ st.
          Wrote (truncate buf ∷ []) (truncate buf) x.stream (dispatch e o.time (truncate buf) st x))
        (sym is)
        (write_out-Wrote (truncate buf ∷ []) (truncate buf) 0 y cipher after_it (omega arith))

  -- A poll in the state that assembles sends one more chunk.
  pub poll_at_rest :
      (now : ℕ) (chunks : List (List ℕ)) (buf : List ℕ) (x : Output e)
      → Sends chunks x
      → 0 < length chunks
      → x.writer.state ≡ EncryptWriteState.assemble_packet
      → Wrote
          (chunks ++ truncate buf ∷ [])
          (truncate buf)
          x.stream
          (poll_write_encrypted e now buf x)
  unfolding poll_write_encrypted
  poll_at_rest now chunks buf x sends some_chunks is =
      let y = record x { writer = assemble e (truncate buf) x.writer } in
      let bytes =
        subst (λ st. x.sent ++ unsent st x.writer.buffer ≡ (transcript e b o chunks).0) is
          sends.bytes_are in
      let (cipher, after_it) =
        assembled chunks (truncate buf) x some_chunks (length-truncate buf) sends.cipher_is bytes in
      subst
        (λ st.
          Wrote (chunks ++ truncate buf ∷ []) (truncate buf) x.stream
            (dispatch e now (truncate buf) st x))
        (sym is)
        (write_out-Wrote (chunks ++ truncate buf ∷ []) (truncate buf) 0 y cipher after_it
          (omega arith))

  -- A poll in the state that writes goes on with the packet that is assembled.
  pub poll_amid :
      (now : ℕ) (chunks : List (List ℕ)) (buf : List ℕ) (pos : ℕ) (x : Output e)
      → Sends chunks x
      → x.writer.state ≡ EncryptWriteState.writing pos
      → pos ≤ length x.writer.buffer
      → Wrote chunks (truncate buf) x.stream (poll_write_encrypted e now buf x)
  unfolding poll_write_encrypted
  poll_amid now chunks buf pos x sends is le =
      let bytes =
        subst (λ st. x.sent ++ unsent st x.writer.buffer ≡ (transcript e b o chunks).0) is
          sends.bytes_are in
      subst (λ st. Wrote chunks (truncate buf) x.stream (dispatch e now (truncate buf) st x))
        (sym is) (write_out-Wrote chunks (truncate buf) pos x sends.cipher_is bytes le)

-- ===== src/Aead/Writer.antt =====
-- `struct EncryptedWriter` of crates/shadowsocks/src/relay/tcprelay/aead.rs.
pub mod Drains
pub mod Sends
pub mod Send
use Prim.Native.Nat.{min}
use mobile_android_obfuscati.Common.{
  ℕ, ◌+◌, ◌-◌, ◌%◌, ◌==◌, ltb, Bool, true, false, List, [], ◌∷◌, ◌++◌, length, take, drop,
  if◌then◌else◌,
}
use mobile_android_obfuscati.Common.{Result, ok, err, panic, IoErrorKind}
use mobile_android_obfuscati.Common.Bytes.{be_bytes}
use mobile_android_obfuscati.Aead.Async.{Poll, M, ◌>>=◌, pure, modify}
use mobile_android_obfuscati.Aead.Cipher.{Aead}
use mobile_android_obfuscati.Aead.Transport.{WriteEvent, poll_write}
use mobile_android_obfuscati.Aead.Reader.{max_packet_size}

pub data EncryptWriteState : Type 0 where
  assemble_packet : EncryptWriteState
  writing : ℕ → EncryptWriteState

-- `while *pos < self.buffer.len()`: what is left to write is polled for, until the stream has taken
-- it. The results are the outcome, the position, the stream and the bytes it has taken so far.
unfoldable pub drain :
    List ℕ
    → ℕ
    → List WriteEvent
    → List ℕ
    → Poll (Result IoErrorKind (Unit {0})) × ℕ × List WriteEvent × List ℕ
drain buffer pos [] sent =
    if ltb pos (length buffer)
    then (Poll.ready (ok tt), pos + length (drop pos buffer), [], sent ++ drop pos buffer)
    else (Poll.ready (ok tt), pos, [], sent)
drain buffer pos (WriteEvent.pending ∷ es) sent =
    if ltb pos (length buffer)
    then (Poll.pending, pos, es, sent)
    else (Poll.ready (ok tt), pos, WriteEvent.pending ∷ es, sent)
drain buffer pos (WriteEvent.failed e ∷ es) sent =
    if ltb pos (length buffer)
    then (Poll.ready (err e), pos, es, sent)
    else (Poll.ready (ok tt), pos, WriteEvent.failed e ∷ es, sent)
drain buffer pos (WriteEvent.accepts m ∷ es) sent =
    let n = min m (length (drop pos buffer)) in
    let rest = drain buffer (pos + n) es (sent ++ take n (drop pos buffer)) in
    if ltb pos (length buffer)
    then (if n == 0 then (Poll.ready (err IoErrorKind.unexpected_eof), pos, es, sent) else rest)
    else (Poll.ready (ok tt), pos, WriteEvent.accepts m ∷ es, sent)

unfoldable pub truncate : List ℕ → List ℕ
truncate buf = if ltb max_packet_size (length buf) then take max_packet_size buf else buf

module _ (e : Aead) where
  pub record EncryptedWriter : Type 0 where
    pub cipher : e.Cipher
    pub buffer : List ℕ
    pub state : EncryptWriteState
    pub salt : List ℕ

  -- What the polls of a writer work on: the bytes that the stream has taken are kept.
  pub record Output : Type 0 where
    pub writer : EncryptedWriter
    pub stream : List WriteEvent
    pub sent : List ℕ

  abbrev pub Writes : Type 0 → Type 0
  Writes A = M Output IoErrorKind A

  unfoldable pub new : List ℕ → List ℕ → EncryptedWriter
  new key nonce = record {
    cipher = e.new key nonce;
    buffer = nonce;
    state = EncryptWriteState.assemble_packet;
    salt = nonce;
  }

  -- `EncryptWriteState::AssemblePacket`: the length, the data, and the next state.
  unfoldable pub assemble : List ℕ → EncryptedWriter → EncryptedWriter
  assemble buf w =
      let (length_part, c1) = e.encrypt_packet w.cipher (be_bytes (length buf % 65536)) in
      let (data_part, c2) = e.encrypt_packet c1 buf in
      record w {
        cipher = c2;
        buffer = (w.buffer ++ length_part) ++ data_part;
        state = EncryptWriteState.writing 0;
      }

  abbrev pub drained :
      Output
      → Poll (Result IoErrorKind (Unit {0})) × ℕ × List WriteEvent × List ℕ
      → Poll (Result IoErrorKind (Unit {0})) × Output
  drained x (outcome, pos, stream, sent) = (
    outcome,
    record {
      writer = record x.writer { state = EncryptWriteState.writing pos };
      stream = stream;
      sent = sent;
    },
  )

  -- `EncryptWriteState::Writing { pos }`
  unfoldable pub write_out : List ℕ → ℕ → Writes ℕ
  write_out buf pos = do
    _ ← λ x. drained x (drain x.writer.buffer pos x.stream x.sent)
    _ ← modify (λ x. record x {
      writer = record x.writer { state = EncryptWriteState.assemble_packet; buffer = [] };
    })
    pure (length buf)

  -- The loop makes at most two turns: a packet is assembled, then written.
  abbrev pub dispatch : List ℕ → EncryptWriteState → Writes ℕ
  dispatch buf EncryptWriteState.assemble_packet = do
    _ ← modify (λ x. record x { writer = assemble buf x.writer })
    write_out buf 0
  dispatch buf (EncryptWriteState.writing pos) = write_out buf pos

  unfoldable pub poll_write_encrypted : List ℕ → Writes ℕ
  poll_write_encrypted buf x = dispatch (truncate buf) x.writer.state x

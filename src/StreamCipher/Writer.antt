-- ===== src/StreamCipher/Writer.antt =====
-- `struct EncryptedWriter` of crates/shadowsocks/src/relay/tcprelay/stream.rs.
pub mod Sends
use mobile_android_obfuscati.Common.{ℕ, List, [], ◌++◌, length}
use mobile_android_obfuscati.Common.{Result, IoErrorKind}
use mobile_android_obfuscati.Aead.Async.{Poll, M, ◌>>=◌, pure, modify}
use mobile_android_obfuscati.Aead.Transport.{WriteEvent}
use mobile_android_obfuscati.Aead.Writer.{drain}
use mobile_android_obfuscati.StreamCipher.{StreamCipher}

pub data EncryptWriteState : Type 0 where
  assemble_packet : EncryptWriteState
  writing : ℕ → EncryptWriteState

module _ (s : StreamCipher) where
  pub record EncryptedWriter : Type 0 where
    pub cipher : s.Cipher
    pub buffer : List ℕ
    pub state : EncryptWriteState
    pub iv : List ℕ

  -- What the polls of a writer work on: the bytes that the stream has taken are kept.
  pub record Output : Type 0 where
    pub writer : EncryptedWriter
    pub stream : List WriteEvent
    pub sent : List ℕ

  abbrev pub Writes : Type 0 → Type 0
  Writes A = M Output IoErrorKind A

  unfoldable pub new : List ℕ → List ℕ → EncryptedWriter
  new key nonce = record {
    cipher = s.new key nonce;
    buffer = nonce;
    state = EncryptWriteState.assemble_packet;
    iv = nonce;
  }

  unfoldable pub assemble : List ℕ → EncryptedWriter → EncryptedWriter
  assemble buf w =
      let (m, next) = s.encrypt_packet w.cipher buf in
      record w { cipher = next; buffer = w.buffer ++ m; state = EncryptWriteState.writing 0 }

  abbrev pub drained :
      Output
      → Poll (Result IoErrorKind (Unit {0})) × ℕ × List WriteEvent × List ℕ
      → Poll (Result IoErrorKind (Unit {0})) × Output
  drained x (outcome, pos, stream, sent) = (
    outcome,
    record {
      writer = record x.writer { state = EncryptWriteState.writing pos };
      stream = stream;
      sent = sent;
    },
  )

  -- `EncryptWriteState::Writing { pos }`, with the loop of the AEAD writer.
  unfoldable pub write_out : List ℕ → ℕ → Writes ℕ
  write_out buf pos = do
    _ ← λ x. drained x (drain x.writer.buffer pos x.stream x.sent)
    _ ← modify (λ x. record x {
      writer = record x.writer { state = EncryptWriteState.assemble_packet; buffer = [] };
    })
    pure (length buf)

  -- The loop makes at most two turns.
  abbrev pub dispatch : List ℕ → EncryptWriteState → Writes ℕ
  dispatch buf EncryptWriteState.assemble_packet = do
    _ ← modify (λ x. record x { writer = assemble buf x.writer })
    write_out buf 0
  dispatch buf (EncryptWriteState.writing pos) = write_out buf pos

  unfoldable pub poll_write_encrypted : List ℕ → Writes ℕ
  poll_write_encrypted buf x = dispatch buf x.writer.state x

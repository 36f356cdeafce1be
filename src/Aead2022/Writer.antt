-- ===== src/Aead2022/Writer.antt =====
-- `struct EncryptedWriter` of crates/shadowsocks/src/relay/tcprelay/aead_2022.rs. The streams and the
-- loop of `poll_write` are those of the AEAD streams.
pub mod Sends
pub mod Send
use mobile_android_obfuscati.Common.{
  ℕ, ◌+◌, ◌%◌, ltb, Bool, true, false, List, [], ◌∷◌, ◌++◌, length, take, if◌then◌else◌, Option,
  none, some,
}
use mobile_android_obfuscati.Common.{Result, ok, err, panic, IoErrorKind}
use mobile_android_obfuscati.Common.Bytes.{be_bytes}
use mobile_android_obfuscati.Aead.Async.{Poll, M, ◌>>=◌, pure, modify}
use mobile_android_obfuscati.Aead.Cipher.{Aead}
use mobile_android_obfuscati.Aead.Transport.{WriteEvent}
use mobile_android_obfuscati.Aead.Writer.{drain}
use mobile_android_obfuscati.Aead2022.Identity.{Method, method_support_eih, Primitives}
use mobile_android_obfuscati.Aead2022.Header.{StreamType, make_header}
use mobile_android_obfuscati.Aead2022.Handshake.{identity_key_len}

abbrev pub max_packet_size : ℕ
max_packet_size = 0xFFFF

pub data EncryptWriteState : Type 0 where
  assemble_header assemble_packet : EncryptWriteState
  writing : ℕ → EncryptWriteState

unfoldable pub truncate : List ℕ → List ℕ
truncate buf = if ltb max_packet_size (length buf) then take max_packet_size buf else buf

module _ (b : Primitives) where
  -- The header that tells a server the hash of the next key.
  unfoldable pub make_eih : Method → List ℕ → List ℕ → List ℕ
  make_eih method sub_key ipsk =
      b.encrypt_block method (take (identity_key_len method) sub_key) (take 16 (b.hash ipsk))

  abbrev pub identity_header : Method → Option (List ℕ) → List ℕ → List ℕ
  identity_header method none ipsk = []
  identity_header method (some sub_key) ipsk = make_eih method sub_key ipsk

  -- The loop over the identity keys, with the subkey of the key before; then the key itself.
  unfoldable pub identity_headers :
      Method → List ℕ → List ℕ → Option (List ℕ) → List (List ℕ) → List ℕ
  identity_headers method key nonce sub_key [] = identity_header method sub_key key
  identity_headers method key nonce sub_key (ipsk ∷ keys) =
      identity_header method sub_key ipsk
      ++ identity_headers method key nonce (some (b.derive_key (ipsk ++ nonce))) keys

  abbrev pub sends_identities : StreamType → Method → Bool
  sends_identities StreamType.client method = method_support_eih method
  sends_identities StreamType.server method = false

module _ (e : Aead) where
  pub record EncryptedWriter : Type 0 where
    pub stream_ty : StreamType
    pub cipher : e.Cipher
    pub method : Method
    pub buffer : List ℕ
    pub state : EncryptWriteState
    pub salt : List ℕ
    pub request_salt : Option (List ℕ)

  -- What the polls of a writer work on: the bytes that the stream has taken are kept.
  pub record Output : Type 0 where
    pub writer : EncryptedWriter
    pub stream : List WriteEvent
    pub sent : List ℕ

  abbrev pub Writes : Type 0 → Type 0
  Writes A = M Output IoErrorKind A

  unfoldable pub with_identity :
      Primitives → StreamType → Method → List ℕ → List ℕ → List (List ℕ) → EncryptedWriter
  with_identity b stream_ty method key nonce identity_keys = record {
    stream_ty = stream_ty;
    cipher = e.new key nonce;
    method = method;
    buffer =
        nonce
        ++ (if sends_identities b stream_ty method
            then identity_headers b method key nonce none identity_keys
            else []);
    state = EncryptWriteState.assemble_header;
    salt = nonce;
    request_salt = none;
  }

  unfoldable pub new : Primitives → StreamType → Method → List ℕ → List ℕ → EncryptedWriter
  new b stream_ty method key nonce = with_identity b stream_ty method key nonce []

  abbrev pub set_request_salt : List ℕ → EncryptedWriter → EncryptedWriter
  set_request_salt salt w = record w { request_salt = some salt }

  abbrev pub reset_cipher_with_key : List ℕ → EncryptedWriter → EncryptedWriter
  reset_cipher_with_key key w = record w { cipher = e.new key w.salt }

  -- One encrypted packet behind the buffer.
  abbrev pub put_encrypted : List ℕ → EncryptedWriter → EncryptedWriter
  put_encrypted plain w =
      let (part, next) = e.encrypt_packet w.cipher plain in
      record w { cipher = next; buffer = w.buffer ++ part }

  -- `EncryptWriteState::AssembleHeader`: the header and the data, and the next state.
  unfoldable pub assemble_first : ℕ → List ℕ → EncryptedWriter → EncryptedWriter
  assemble_first now buf w =
      let header = make_header w.stream_ty now w.request_salt (length buf) in
      record (put_encrypted buf (put_encrypted header w)) { state = EncryptWriteState.writing 0 }

  -- `EncryptWriteState::AssemblePacket`: the length, the data, and the next state.
  unfoldable pub assemble : List ℕ → EncryptedWriter → EncryptedWriter
  assemble buf w = record (put_encrypted buf (put_encrypted (be_bytes (length buf % 65536)) w)) {
    state = EncryptWriteState.writing 0;
  }

  abbrev pub drained :
      Output
      → Poll (Result IoErrorKind (Unit {0})) × ℕ × List WriteEvent × List ℕ
      → Poll (Result IoErrorKind (Unit {0})) × Output
  drained x (outcome, pos, stream, sent) = (
    outcome,
    record {
      writer = record x.writer { state = EncryptWriteState.writing pos };
      stream = stream;
      sent = sent;
    },
  )

  -- `EncryptWriteState::Writing { pos }`
  unfoldable pub write_out : List ℕ → ℕ → Writes ℕ
  write_out buf pos = do
    _ ← λ x. drained x (drain x.writer.buffer pos x.stream x.sent)
    _ ← modify (λ x. record x {
      writer = record x.writer { state = EncryptWriteState.assemble_packet; buffer = [] };
    })
    pure (length buf)

  -- The loop makes at most two turns: a packet is assembled, then written.
  abbrev pub dispatch : ℕ → List ℕ → EncryptWriteState → Writes ℕ
  dispatch now buf EncryptWriteState.assemble_header = do
    _ ← modify (λ x. record x { writer = assemble_first now buf x.writer })
    write_out buf 0
  dispatch now buf EncryptWriteState.assemble_packet = do
    _ ← modify (λ x. record x { writer = assemble buf x.writer })
    write_out buf 0
  dispatch now buf (EncryptWriteState.writing pos) = write_out buf pos

  unfoldable pub poll_write_encrypted : ℕ → List ℕ → Writes ℕ
  poll_write_encrypted now buf x = dispatch now (truncate buf) x.writer.state x

-- ===== src/StreamCipher/Reader.antt =====
-- `struct DecryptedReader` of crates/shadowsocks/src/relay/tcprelay/stream.rs.
pub mod Receives
use mobile_android_obfuscati.Common.{
  ℕ, ◌==◌, ltb, Bool, true, false, not, List, [], ◌∷◌, ◌++◌, length, take, if◌then◌else◌, Option,
  none, some,
}
use mobile_android_obfuscati.Common.{Result, ok, err, panic, IoErrorKind}
use mobile_android_obfuscati.Aead.Async.{Poll, M, ◌>>=◌, pure, fail, abort, modify}
use mobile_android_obfuscati.Aead.Cipher.{NonceCheck}
use mobile_android_obfuscati.Aead.Transport.{ReadEvent, poll_read}
use mobile_android_obfuscati.Aead.Reader.{fill}
use mobile_android_obfuscati.StreamCipher.{StreamCipher, ProtocolError}

pub data DecryptReadState : Type 0 where
  wait_iv : List ℕ → DecryptReadState
  read : DecryptReadState

module _ (s : StreamCipher) where
  pub record DecryptedReader : Type 0 where
    pub state : DecryptReadState
    pub cipher : Option s.Cipher
    pub buffer : List ℕ
    pub iv : Option (List ℕ)
    pub has_handshaked : Bool

  unfoldable pub new : List ℕ → DecryptedReader
  new key =
      if ltb 0 s.iv_len
      then record {
        state = DecryptReadState.wait_iv key;
        cipher = none;
        buffer = [];
        iv = none;
        has_handshaked = false;
      }
      else record {
        state = DecryptReadState.read;
        cipher = some (s.new key []);
        buffer = [];
        iv = some [];
        has_handshaked = false;
      }

module _ (s : StreamCipher) (c : NonceCheck) where
  -- What the polls of a reader work on.
  pub record Connection : Type 0 where
    pub reader : DecryptedReader s
    pub context : c.Context
    pub stream : List ReadEvent

  abbrev pub Polled : Type 0 → Type 0
  Polled A = M Connection ProtocolError A

  abbrev pub update_reader : (DecryptedReader s → DecryptedReader s) → Polled (Unit {0})
  update_reader f = modify (λ x. record x { reader = f x.reader })

  -- The outcome of the loop of `poll_read_exact`, which is that of the AEAD reader.
  abbrev pub filled :
      Connection
      → Poll (Result IoErrorKind ℕ) × List ℕ × List ReadEvent
      → Poll (Result ProtocolError ℕ) × Connection
  filled x (Poll.pending, buffer, stream) =
      (Poll.pending, record x { reader = record x.reader { buffer = buffer }; stream = stream })
  filled x (Poll.ready (ok n), buffer, stream) = (
    Poll.ready (ok n),
    record x { reader = record x.reader { buffer = buffer }; stream = stream },
  )
  filled x (Poll.ready (err k), buffer, stream) = (
    Poll.ready (err (ProtocolError.io_error k)),
    record x { reader = record x.reader { buffer = buffer }; stream = stream },
  )
  filled x (Poll.ready panic, buffer, stream) = (Poll.ready panic, x)

  unfoldable pub poll_read_exact : ℕ → Polled ℕ
  poll_read_exact size =
      if size == 0 then abort else λ x. filled x (fill size x.reader.buffer x.stream)

  abbrev pub iv_checked :
      Connection
      → Result IoErrorKind (Unit {0}) × c.Context
      → Poll (Result ProtocolError (Unit {0})) × Connection
  iv_checked x (ok _, context) = (Poll.ready (ok tt), record x { context = context })
  iv_checked x (err k, context) =
      (Poll.ready (err (ProtocolError.io_error k)), record x { context = context })
  iv_checked x (panic, context) = (Poll.ready panic, record x { context = context })

  unfoldable pub poll_read_iv : List ℕ → Polled (Unit {0})
  poll_read_iv key = do
    n ← poll_read_exact s.iv_len
    if ltb n s.iv_len then fail (ProtocolError.io_error IoErrorKind.unexpected_eof) else do
      _ ← λ x. iv_checked x (c.check_nonce_replay x.context (take s.iv_len x.reader.buffer))
      update_reader (λ r. record r {
        iv = some (take s.iv_len r.buffer);
        cipher = some (s.new key (take s.iv_len r.buffer));
      })

  -- `cipher.decrypt_packet(m)` on the bytes that were read.
  unfoldable pub decrypt_read : List ℕ → Polled (List ℕ)
  decrypt_read m x = elim x.reader.cipher [
    | none ↦ (Poll.ready panic, x)
    | some cipher ↦
        let (valid, plain, next) = s.decrypt_packet cipher m in
        (
          if not valid then Poll.ready (err ProtocolError.decrypt_error) else Poll.ready (ok plain),
          record x { reader = record x.reader { cipher = some next } },
        )
  ]

  abbrev pub polled_read :
      Connection
      → Poll (Result IoErrorKind (List ℕ)) × List ReadEvent
      → Poll (Result ProtocolError (List ℕ)) × Connection
  polled_read x (Poll.pending, es) = (Poll.pending, record x { stream = es })
  polled_read x (Poll.ready (ok []), es) = (Poll.ready (ok []), record x { stream = es })
  polled_read x (Poll.ready (ok (b ∷ bs)), es) = decrypt_read (b ∷ bs) (record x { stream = es })
  polled_read x (Poll.ready (err k), es) =
      (Poll.ready (err (ProtocolError.io_error k)), record x { stream = es })
  polled_read x (Poll.ready panic, es) = (Poll.ready panic, record x { stream = es })

  -- `DecryptReadState::Read`; `remaining` is the room in the buffer of the caller.
  unfoldable pub turn_read : ℕ → Polled (List ℕ)
  turn_read remaining x = polled_read x (poll_read remaining x.stream)

  -- The loop makes at most two turns.
  abbrev pub dispatch : ℕ → DecryptReadState → Polled (List ℕ)
  dispatch remaining (DecryptReadState.wait_iv key) = do
    _ ← poll_read_iv key
    _ ←
        update_reader
          (λ r. record r { buffer = []; state = DecryptReadState.read; has_handshaked = true })
    turn_read remaining
  dispatch remaining DecryptReadState.read = turn_read remaining

  unfoldable pub poll_read_decrypted : ℕ → Polled (List ℕ)
  poll_read_decrypted remaining x = dispatch remaining x.reader.state x

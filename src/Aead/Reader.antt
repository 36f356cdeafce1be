-- ===== src/Aead/Reader.antt =====
-- `struct DecryptedReader` of crates/shadowsocks/src/relay/tcprelay/aead.rs.
pub mod Fill
pub mod Ends
pub mod Steps
pub mod Expects
pub mod Delivers
pub mod Receive
pub mod Keeps
pub mod Refuses
pub mod Rejected
use Prim.Native.Nat.{min}
use mobile_android_obfuscati.Common.{
  ℕ, zero, suc, ◌+◌, ◌-◌, ◌*◌, ◌==◌, ltb, leb, Bool, true, false, not, List, [], ◌∷◌, ◌++◌, length,
  take, drop, get_or, if◌then◌else◌, Option, none, some,
}
use mobile_android_obfuscati.Common.{Result, ok, err, panic, IoErrorKind}
use mobile_android_obfuscati.Common.Bytes.{from_be_bytes}
use mobile_android_obfuscati.Aead.Async.{Poll, M, ◌>>=◌, pure, fail, abort, gets, modify}
use mobile_android_obfuscati.Aead.Cipher.{Aead, NonceCheck}
use mobile_android_obfuscati.Aead.Transport.{ReadEvent, poll_read, incoming}

abbrev pub max_packet_size : ℕ
max_packet_size = 0x3FFF

pub data ProtocolError : Type 0 where
  io_error : IoErrorKind → ProtocolError
  header_too_short : ℕ → ℕ → ProtocolError
  decrypt_data_error decrypt_length_error : ProtocolError
  data_too_long : ℕ → ProtocolError

pub data DecryptReadState : Type 0 where
  wait_salt : List ℕ → DecryptReadState
  read_length : DecryptReadState
  read_data : ℕ → DecryptReadState
  buffered_data : ℕ → DecryptReadState

module _ (e : Aead) where
  pub record DecryptedReader : Type 0 where
    pub state : DecryptReadState
    pub cipher : Option e.Cipher
    pub buffer : List ℕ
    pub salt : Option (List ℕ)
    pub has_handshaked : Bool

-- `poll_read_exact`: the loop of `poll_read` until the buffer holds `size` bytes. What a poll gives is
-- written out, and a poll that leaves room takes all that has arrived.
unfoldable pub fill :
    ℕ → List ℕ → List ReadEvent → Poll (Result IoErrorKind ℕ) × List ℕ × List ReadEvent
fill size buffer [] =
    if leb size (length buffer)
    then (Poll.ready (ok size), buffer, [])
    else if length buffer == 0
    then (Poll.ready (ok 0), buffer, [])
    else (Poll.ready (err IoErrorKind.unexpected_eof), buffer, [])
fill size buffer (ReadEvent.pending ∷ es) =
    if leb size (length buffer)
    then (Poll.ready (ok size), buffer, ReadEvent.pending ∷ es)
    else (Poll.pending, buffer, es)
fill size buffer (ReadEvent.failed e ∷ es) =
    if leb size (length buffer)
    then (Poll.ready (ok size), buffer, ReadEvent.failed e ∷ es)
    else (Poll.ready (err e), buffer, es)
fill size buffer (ReadEvent.arrived bs ∷ es) =
    let remaining = size - length buffer in
    let rest = fill size (buffer ++ bs) es in
    if leb size (length buffer)
    then (Poll.ready (ok size), buffer, ReadEvent.arrived bs ∷ es)
    else if ltb remaining (length bs)
    then (
      Poll.ready (ok size),
      buffer ++ take remaining bs,
      ReadEvent.arrived (drop remaining bs) ∷ es,
    )
    else if not (length bs == 0)
    then rest
    else if length buffer == 0
    then (Poll.ready (ok 0), buffer, es)
    else (Poll.ready (err IoErrorKind.unexpected_eof), buffer, es)

module _ (e : Aead) (c : NonceCheck) where
  -- What the polls of a reader work on.
  pub record Connection : Type 0 where
    pub reader : DecryptedReader e
    pub context : c.Context
    pub stream : List ReadEvent

module _ {e : Aead} where
  unfoldable pub new : List ℕ → DecryptedReader e
  new key =
      if ltb 0 e.salt_len
      then record {
        state = DecryptReadState.wait_salt key;
        cipher = none;
        buffer = [];
        salt = none;
        has_handshaked = false;
      }
      else record {
        state = DecryptReadState.read_length;
        cipher = some (e.new key []);
        buffer = [];
        salt = none;
        has_handshaked = false;
      }

module _ (e : Aead) (c : NonceCheck) where
  abbrev pub Polled : Type 0 → Type 0
  Polled A = M (Connection e c) ProtocolError A

  abbrev pub update_reader : (DecryptedReader e → DecryptedReader e) → Polled (Unit {0})
  update_reader f = modify (λ x. record x { reader = f x.reader })

  -- The outcome of `fill`, with `From<io::Error>`.
  abbrev pub filled :
      Connection e c
      → Poll (Result IoErrorKind ℕ) × List ℕ × List ReadEvent
      → Poll (Result ProtocolError ℕ) × Connection e c
  filled x (Poll.pending, buffer, stream) =
      (Poll.pending, record x { reader = record x.reader { buffer = buffer }; stream = stream })
  filled x (Poll.ready (ok n), buffer, stream) = (
    Poll.ready (ok n),
    record x { reader = record x.reader { buffer = buffer }; stream = stream },
  )
  filled x (Poll.ready (err k), buffer, stream) = (
    Poll.ready (err (ProtocolError.io_error k)),
    record x { reader = record x.reader { buffer = buffer }; stream = stream },
  )
  filled x (Poll.ready panic, buffer, stream) = (Poll.ready panic, x)

  -- `assert!(size != 0)` first.
  unfoldable pub poll_read_exact : ℕ → Polled ℕ
  poll_read_exact size =
      if size == 0 then abort else λ x. filled x (fill size x.reader.buffer x.stream)

  unfoldable pub poll_read_salt : List ℕ → Polled (Unit {0})
  poll_read_salt key = do
    n ← poll_read_exact e.salt_len
    if ltb n e.salt_len
        then fail (ProtocolError.io_error IoErrorKind.unexpected_eof)
        else update_reader (λ r. record r {
          salt = some (take e.salt_len r.buffer);
          cipher = some (e.new key (take e.salt_len r.buffer));
        })

  -- `cipher.decrypt_packet(&mut self.buffer[..len])`; `expect` panics where there is no cipher.
  unfoldable pub decrypt_buffer : ℕ → Polled Bool
  decrypt_buffer len x = elim x.reader.cipher [
    | none ↦ (Poll.ready panic, x)
    | some cipher ↦
        let (valid, plain, next) = e.decrypt_packet cipher (take len x.reader.buffer) in
        let buffer = plain ++ drop len x.reader.buffer in
        (
          Poll.ready (ok valid),
          record x { reader = record x.reader { cipher = some next; buffer = buffer } },
        )
  ]

  unfoldable pub decrypt_length : ℕ → Polled ℕ
  decrypt_length length_len = do
    valid ← decrypt_buffer length_len
    if not valid then fail ProtocolError.decrypt_length_error else do
      plen ← gets (λ x. from_be_bytes (get_or x.reader.buffer 0 0) (get_or x.reader.buffer 1 0))
      if ltb max_packet_size plen then fail (ProtocolError.data_too_long plen) else pure plen

  unfoldable pub poll_read_length : Polled (Option ℕ)
  poll_read_length = do
    let length_len = 2 + e.tag_len
    n ← poll_read_exact length_len
    if n == 0 then pure none else do length ← decrypt_length length_len; pure (some length)

  abbrev pub salt_checked :
      Connection e c
      → Result IoErrorKind (Unit {0}) × c.Context
      → Poll (Result ProtocolError (Unit {0})) × Connection e c
  salt_checked x (ok _, context) = (Poll.ready (ok tt), record x { context = context })
  salt_checked x (err k, context) =
      (Poll.ready (err (ProtocolError.io_error k)), record x { context = context })
  salt_checked x (panic, context) = (Poll.ready panic, record x { context = context })

  -- `if self.salt.is_some() { self.salt.take() .. check_nonce_replay(..)? }`
  unfoldable pub check_salt : Polled (Unit {0})
  check_salt x = elim x.reader.salt [
    | none ↦ (Poll.ready (ok tt), x)
    | some salt ↦
        salt_checked (record x { reader = record x.reader { salt = none } })
          (c.check_nonce_replay x.context salt)
  ]

  unfoldable pub poll_read_data : ℕ → Polled (Unit {0})
  poll_read_data size = do
    let data_len = size + e.tag_len
    n ← poll_read_exact data_len
    if n == 0 then fail (ProtocolError.io_error IoErrorKind.unexpected_eof) else do
      valid ← decrypt_buffer data_len
      if not valid
          then fail ProtocolError.decrypt_data_error
          else do _ ← check_salt; update_reader (λ r. record r { buffer = take size r.buffer })

  -- What one turn of the loop of `poll_read_decrypted` comes to: the bytes to return, or another turn.
  unfoldable pub turn_wait_salt : List ℕ → Polled (Option (List ℕ))
  turn_wait_salt key = do
    _ ← poll_read_salt key
    _ ←
        update_reader (λ r. record r {
          buffer = [];
          state = DecryptReadState.read_length;
          has_handshaked = true;
        })
    pure none

  unfoldable pub turn_read_length : Polled (Option (List ℕ))
  turn_read_length = do
    length ← poll_read_length
    elim length [
      | none ↦ pure (some [])
      | some n ↦ do
        _ ← update_reader (λ r. record r { buffer = []; state = DecryptReadState.read_data n })
        pure none
    ]

  unfoldable pub turn_read_data : ℕ → Polled (Option (List ℕ))
  turn_read_data n = do
    _ ← poll_read_data n
    _ ← update_reader (λ r. record r { state = DecryptReadState.buffered_data 0 })
    pure none

  -- `remaining` is the room in the buffer of the caller.
  unfoldable pub turn_buffered_data : ℕ → ℕ → Polled (Option (List ℕ))
  turn_buffered_data remaining pos x =
      if ltb pos (length x.reader.buffer)
      then (let consumed = min (length x.reader.buffer - pos) remaining in
          (
            Poll.ready (ok (some (take consumed (drop pos x.reader.buffer)))),
            record x {
              reader = record x.reader { state = DecryptReadState.buffered_data (pos + consumed) };
            },
          ))
      else (
        Poll.ready (ok none),
        record x { reader = record x.reader { buffer = []; state = DecryptReadState.read_length } },
      )

  abbrev pub dispatch : ℕ → DecryptReadState → Polled (Option (List ℕ))
  dispatch remaining (DecryptReadState.wait_salt key) = turn_wait_salt key
  dispatch remaining DecryptReadState.read_length = turn_read_length
  dispatch remaining (DecryptReadState.read_data n) = turn_read_data n
  dispatch remaining (DecryptReadState.buffered_data pos) = turn_buffered_data remaining pos

  unfoldable pub turn : ℕ → Polled (Option (List ℕ))
  turn remaining x = dispatch remaining x.reader.state x

  abbrev pub Answer : Type 0
  Answer = Poll (Result ProtocolError (List ℕ)) × Connection e c

  abbrev pub after_turn :
      Poll (Result ProtocolError (Option (List ℕ))) × Connection e c
      → (Connection e c → Option Answer)
      → Option Answer
  after_turn (Poll.pending, x) again = some (Poll.pending, x)
  after_turn (Poll.ready (ok (some out)), x) again = some (Poll.ready (ok out), x)
  after_turn (Poll.ready (ok none), x) again = again x
  after_turn (Poll.ready (err failure), x) again = some (Poll.ready (err failure), x)
  after_turn (Poll.ready panic, x) again = some (Poll.ready panic, x)

  -- The loop with fuel; `none` means that the fuel ran out.
  unfoldable pub read_loop : ℕ → ℕ → Connection e c → Option Answer
  read_loop zero remaining x = none
  read_loop (suc fuel) remaining x = after_turn (turn remaining x) (read_loop fuel remaining)

  -- Two turns for each byte that is buffered or yet to come, and two to end.
  abbrev pub enough_fuel : Connection e c → ℕ
  enough_fuel x = 2 * (length x.reader.buffer + length (incoming x.stream)) + 2

  unfoldable pub poll_read_decrypted : ℕ → Connection e c → Option Answer
  poll_read_decrypted remaining x = read_loop (enough_fuel x) remaining x

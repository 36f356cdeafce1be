-- ===== src/Aead2022/Reader.antt =====
-- `poll_read_decrypted` of `struct DecryptedReader`, crates/shadowsocks/src/relay/tcprelay/aead_2022.rs,
-- after the header. The loop of `poll_read` is that of the AEAD streams.
pub mod Ends
pub mod Steps
pub mod Expects
pub mod Heading
pub mod Delivers
pub mod Receive
use Prim.Native.Nat.{min}
use mobile_android_obfuscati.Common.{
  ℕ, zero, suc, ◌+◌, ◌-◌, ◌*◌, ◌%◌, ◌^◌, ◌==◌, ltb, Bool, true, false, not, ◌&&◌, List, [], ◌∷◌,
  ◌++◌, length, take, drop, replicate, get_or, if◌then◌else◌, Option, none, some,
}
use mobile_android_obfuscati.Common.{Result, ok, err, panic, IoErrorKind}
use mobile_android_obfuscati.Common.Bytes.{from_be_bytes}
use mobile_android_obfuscati.Aead.Async.{Poll, M, ◌>>=◌, pure, fail, abort, gets, modify}
use mobile_android_obfuscati.Aead.Cipher.{Aead, NonceCheck}
use mobile_android_obfuscati.Aead.Transport.{ReadEvent, poll_read, incoming}
use mobile_android_obfuscati.Aead.Reader.{fill}
use mobile_android_obfuscati.Aead2022.Identity.{
  Method, method_support_eih, Primitives, ServerUserManager, ServerUser, get_user_by_hash,
}
use mobile_android_obfuscati.Aead2022.Header.{
  StreamType, ProtocolError, request_salt_len, parse_header,
}
use mobile_android_obfuscati.Aead2022.Connection.{
  DecryptReadState, DecryptedReader, Connection, Polled, update_reader,
}
use mobile_android_obfuscati.Aead2022.Handshake.{turn_read_header}

module _ (e : Aead) (c : NonceCheck) where
  -- The outcome of `fill`, with `From<io::Error>`.
  abbrev pub filled :
      Connection e c
      → Poll (Result IoErrorKind ℕ) × List ℕ × List ReadEvent
      → Poll (Result ProtocolError ℕ) × Connection e c
  filled x (Poll.pending, buffer, stream) =
      (Poll.pending, record x { reader = record x.reader { buffer = buffer }; stream = stream })
  filled x (Poll.ready (ok n), buffer, stream) = (
    Poll.ready (ok n),
    record x { reader = record x.reader { buffer = buffer }; stream = stream },
  )
  filled x (Poll.ready (err k), buffer, stream) = (
    Poll.ready (err (ProtocolError.io_error k)),
    record x { reader = record x.reader { buffer = buffer }; stream = stream },
  )
  filled x (Poll.ready panic, buffer, stream) = (Poll.ready panic, x)

  -- `assert!(size != 0)` first.
  unfoldable pub poll_read_exact : ℕ → Polled e c ℕ
  poll_read_exact size =
      if size == 0 then abort else λ x. filled x (fill size x.reader.buffer x.stream)

  -- `cipher.decrypt_packet(&mut self.buffer[..len])`; `expect` panics where there is no cipher.
  unfoldable pub decrypt_buffer : ℕ → Polled e c Bool
  decrypt_buffer len x = elim x.reader.cipher [
    | none ↦ (Poll.ready panic, x)
    | some cipher ↦
        let (valid, plain, next) = e.decrypt_packet cipher (take len x.reader.buffer) in
        let buffer = plain ++ drop len x.reader.buffer in
        (
          Poll.ready (ok valid),
          record x { reader = record x.reader { cipher = some next; buffer = buffer } },
        )
  ]

  unfoldable pub decrypt_length : ℕ → Polled e c ℕ
  decrypt_length length_len = do
    valid ← decrypt_buffer length_len
    if not valid
        then fail ProtocolError.decrypt_length_error
        else gets (λ x. from_be_bytes (get_or x.reader.buffer 0 0) (get_or x.reader.buffer 1 0))

  unfoldable pub poll_read_length : Polled e c (Option ℕ)
  poll_read_length = do
    let length_len = 2 + e.tag_len
    n ← poll_read_exact length_len
    if n == 0 then pure none else do length ← decrypt_length length_len; pure (some length)

  unfoldable pub poll_read_data : ℕ → Polled e c (Unit {0})
  poll_read_data size = do
    let data_len = size + e.tag_len
    n ← poll_read_exact data_len
    if n == 0 then fail (ProtocolError.io_error IoErrorKind.unexpected_eof) else do
      valid ← decrypt_buffer data_len
      if not valid
          then fail ProtocolError.decrypt_data_error
          else update_reader e c (λ r. record r { buffer = take size r.buffer })

  -- What one turn of the loop of `poll_read_decrypted` comes to: the bytes to return, or another turn.
  unfoldable pub turn_read_length : Polled e c (Option (List ℕ))
  turn_read_length = do
    length ← poll_read_length
    elim length [
      | none ↦ pure (some [])
      | some n ↦ do
        _ ← update_reader e c (λ r. record r { buffer = []; state = DecryptReadState.read_data n })
        pure none
    ]

  unfoldable pub turn_read_data : ℕ → Polled e c (Option (List ℕ))
  turn_read_data n = do
    _ ← poll_read_data n
    _ ← update_reader e c (λ r. record r {
      state = DecryptReadState.buffered_data 0;
      data_chunk_count = (r.data_chunk_count + 1) % 2 ^ 64;
    })
    pure none

  -- `remaining` is the room in the buffer of the caller.
  unfoldable pub turn_buffered_data : ℕ → ℕ → Polled e c (Option (List ℕ))
  turn_buffered_data remaining pos x =
      if ltb pos (length x.reader.buffer)
      then (let consumed = min (length x.reader.buffer - pos) remaining in
          (
            Poll.ready (ok (some (take consumed (drop pos x.reader.buffer)))),
            record x {
              reader = record x.reader { state = DecryptReadState.buffered_data (pos + consumed) };
            },
          ))
      else (
        Poll.ready (ok none),
        record x { reader = record x.reader { buffer = []; state = DecryptReadState.read_length } },
      )

  abbrev pub Answer : Type 0
  Answer = Poll (Result ProtocolError (List ℕ)) × Connection e c

  abbrev pub after_turn :
      Poll (Result ProtocolError (Option (List ℕ))) × Connection e c
      → (Connection e c → Option Answer)
      → Option Answer
  after_turn (Poll.pending, x) again = some (Poll.pending, x)
  after_turn (Poll.ready (ok (some out)), x) again = some (Poll.ready (ok out), x)
  after_turn (Poll.ready (ok none), x) again = again x
  after_turn (Poll.ready (err failure), x) again = some (Poll.ready (err failure), x)
  after_turn (Poll.ready panic, x) again = some (Poll.ready panic, x)

  -- Two turns for each byte that is buffered or yet to come, and two to end.
  abbrev pub enough_fuel : Connection e c → ℕ
  enough_fuel x = 2 * (length x.reader.buffer + length (incoming x.stream)) + 2

module _ (e : Aead) (c : NonceCheck) (b : Primitives) (now : ℕ) where
  abbrev pub dispatch : ℕ → DecryptReadState → Polled e c (Option (List ℕ))
  dispatch remaining (DecryptReadState.read_header key) = turn_read_header e c b now key
  dispatch remaining DecryptReadState.read_length = turn_read_length e c
  dispatch remaining (DecryptReadState.read_data n) = turn_read_data e c n
  dispatch remaining (DecryptReadState.buffered_data pos) = turn_buffered_data e c remaining pos

  unfoldable pub turn : ℕ → Polled e c (Option (List ℕ))
  turn remaining x = dispatch remaining x.reader.state x

  -- The loop with fuel; `none` means that the fuel ran out.
  unfoldable pub read_loop : ℕ → ℕ → Connection e c → Option (Answer e c)
  read_loop zero remaining x = none
  read_loop (suc fuel) remaining x = after_turn e c (turn remaining x) (read_loop fuel remaining)

  unfoldable pub poll_read_decrypted : ℕ → Connection e c → Option (Answer e c)
  poll_read_decrypted remaining x = read_loop (enough_fuel e c x) remaining x

module _ {e : Aead} where
  -- The number of chunks, and what is left of the current one.
  unfoldable pub current_data_chunk_remaining : DecryptedReader e → ℕ × ℕ
  current_data_chunk_remaining r = elim r.state [
    | DecryptReadState.buffered_data pos ↦ (r.data_chunk_count, length r.buffer - pos)
    | _ ↦ (r.data_chunk_count, 0)
  ]

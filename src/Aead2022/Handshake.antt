-- ===== src/Aead2022/Handshake.antt =====
-- The header of a stream: `poll_read_header` of crates/shadowsocks/src/relay/tcprelay/aead_2022.rs. The
-- time of the clock, in seconds, is an argument.
pub mod Agrees
pub mod Accepted
pub mod Rejects
use Prim.Native.Nat.{min}
use mobile_android_obfuscati.Common.{
  ℕ, zero, suc, ◌+◌, ◌-◌, ◌*◌, ◌%◌, ◌^◌, ◌==◌, ltb, Bool, true, false, not, ◌&&◌, List, [], ◌∷◌,
  ◌++◌, length, take, drop, replicate, get_or, if◌then◌else◌, Option, none, some,
}
use mobile_android_obfuscati.Common.{Result, ok, err, panic, IoErrorKind}
use mobile_android_obfuscati.Common.Bytes.{from_be_bytes}
use mobile_android_obfuscati.Aead.Async.{Poll, M, ◌>>=◌, pure, fail, abort, gets, modify}
use mobile_android_obfuscati.Aead.Cipher.{Aead, NonceCheck}
use mobile_android_obfuscati.Aead.Transport.{ReadEvent, poll_read, incoming}
use mobile_android_obfuscati.Aead.Reader.{fill}
use mobile_android_obfuscati.Aead2022.Identity.{
  Method, method_support_eih, Primitives, ServerUserManager, ServerUser, get_user_by_hash,
}
use mobile_android_obfuscati.Aead2022.Header.{
  StreamType, ProtocolError, request_salt_len, parse_header,
}
use mobile_android_obfuscati.Aead2022.Connection.{
  DecryptReadState, DecryptedReader, Connection, Polled, update_reader,
}

-- The range of the buffer that a poll has filled is `bs`.
abbrev pub overwrite : List ℕ → List ℕ → List ℕ
overwrite bs buffer = bs ++ drop (length bs) buffer

abbrev pub resize_up : ℕ → List ℕ → List ℕ
resize_up n buffer = buffer ++ replicate (n - length buffer) 0

abbrev pub require_eih : StreamType → Method → Option ServerUserManager → Bool
require_eih StreamType.server method (some users) = method_support_eih method
require_eih StreamType.server method none = false
require_eih StreamType.client method users = false

-- The size of the key of the block cipher of a method.
abbrev pub identity_key_len : Method → ℕ
identity_key_len Method.aes_128_gcm = 16
identity_key_len Method.aes_256_gcm = 32
identity_key_len Method.chacha20_poly1305 = 0

module _ {e : Aead} where
  abbrev pub header_len : DecryptedReader e → ℕ
  header_len r =
      e.salt_len
      + (if require_eih r.stream_ty r.method r.user_manager then 16 else 0)
      + 1
      + 8
      + request_salt_len r.stream_ty e.salt_len
      + 2
      + e.tag_len

module _ (e : Aead) (c : NonceCheck) (b : Primitives) (now : ℕ) where
  abbrev pub lift : {A : Type 0} → Result ProtocolError A → Polled e c A
  lift r = λ x. (Poll.ready r, x)

  -- The one poll for the header, into the front of the buffer.
  abbrev pub polled_header :
      Connection e c
      → Poll (Result IoErrorKind (List ℕ)) × List ReadEvent
      → Poll (Result ProtocolError (List ℕ)) × Connection e c
  polled_header x (Poll.pending, stream) = (Poll.pending, record x { stream = stream })
  polled_header x (Poll.ready (ok bs), stream) = (
    Poll.ready (ok bs),
    record x {
      reader = record x.reader { buffer = overwrite bs x.reader.buffer };
      stream = stream;
    },
  )
  polled_header x (Poll.ready (err k), stream) =
      (Poll.ready (err (ProtocolError.io_error k)), record x { stream = stream })
  polled_header x (Poll.ready panic, stream) = (Poll.ready panic, record x { stream = stream })

  unfoldable pub poll_header : Polled e c (List ℕ)
  poll_header x =
      let len = header_len x.reader in
      let y = record x { reader = record x.reader { buffer = resize_up len x.reader.buffer } } in
      polled_header y (poll_read len y.stream)

  -- The user whose identity header it is.
  abbrev pub found_user : List ℕ → Option ServerUser → Polled e c (List ℕ)
  found_user user_hash none = fail (ProtocolError.invalid_client_user user_hash)
  found_user user_hash (some user) = do
    _ ← update_reader e c (λ r. record r { user_key = some user.key })
    pure user.key

  abbrev pub get_user : List ℕ → Option ServerUserManager → Polled e c (List ℕ)
  get_user user_hash none = abort
  get_user user_hash (some users) = found_user user_hash (get_user_by_hash user_hash users)

  -- The key that the rest of the stream is encrypted with. The identity header is one block.
  unfoldable pub identify : List ℕ → List ℕ → List ℕ → Polled e c (List ℕ)
  identify key salt header_chunk x =
      let r = x.reader in
      if require_eih r.stream_ty r.method r.user_manager
      then (if ltb (length header_chunk) 16
          then (Poll.ready (err ProtocolError.missing_extended_identity_header), x)
          else (let identity_sub_key = b.derive_key (key ++ salt) in
              let user_hash =
                b.decrypt_block r.method (take (identity_key_len r.method) identity_sub_key)
                  (take 16 header_chunk) in
              get_user user_hash r.user_manager x))
      else (Poll.ready (ok key), x)

  abbrev pub check_nonce :
      Connection e c
      → Result IoErrorKind (Unit {0}) × c.Context
      → Poll (Result ProtocolError (Unit {0})) × Connection e c
  check_nonce x (ok _, context) = (Poll.ready (ok tt), record x { context = context })
  check_nonce x (err k, context) =
      (Poll.ready (err (ProtocolError.io_error k)), record x { context = context })
  check_nonce x (panic, context) = (Poll.ready panic, record x { context = context })

  -- Only a server checks the salt: the header for a client has the salt of the request.
  abbrev pub check_salt : StreamType → List ℕ → Polled e c (Unit {0})
  check_salt StreamType.client salt = pure tt
  check_salt StreamType.server salt = λ x. check_nonce x (c.check_nonce_replay x.context salt)

  abbrev pub set_request_salt : Option (List ℕ) → DecryptedReader e → DecryptedReader e
  set_request_salt none r = r
  set_request_salt (some salt) r = record r { request_salt = some salt }

  -- After the fields of the header are read.
  unfoldable pub accept_header :
      StreamType → List ℕ → e.Cipher → Option (List ℕ) × ℕ → Polled e c (Option ℕ)
  accept_header ty salt cipher (request_salt, data_length) = do
    _ ← update_reader e c (set_request_salt request_salt)
    _ ← check_salt ty salt
    _ ← update_reader e c (λ r. record r { salt = some salt; cipher = some cipher })
    pure (some data_length)

  -- The header chunk is decrypted, in place, and read.
  unfoldable pub open_header :
      StreamType → List ℕ → List ℕ → List ℕ → e.Cipher → Polled e c (Option ℕ)
  open_header ty salt front header_chunk cipher = do
    let (valid, plain, next) = e.decrypt_packet cipher header_chunk
    _ ← update_reader e c (λ r. record r { buffer = overwrite (front ++ plain) r.buffer })
    if not valid then fail ProtocolError.decrypt_header_chunk_error else do
      fields ← lift (parse_header ty (request_salt_len ty e.salt_len) now plain)
      accept_header ty salt next fields

  -- What is done with a whole header.
  unfoldable pub read_whole_header : List ℕ → List ℕ → Polled e c (Option ℕ)
  read_whole_header key header_buf = do
    let salt = take e.salt_len header_buf
    let header_chunk = drop e.salt_len header_buf
    r ← gets (λ x. x.reader)
    let eih_len : ℕ = if require_eih r.stream_ty r.method r.user_manager then 16 else 0
    cipher_key ← identify key salt header_chunk
    open_header r.stream_ty salt (take (e.salt_len + eih_len) header_buf)
        (drop eih_len header_chunk) (e.new cipher_key salt)

  unfoldable pub poll_read_header : List ℕ → Polled e c (Option ℕ)
  poll_read_header key = do
    len ← gets (λ x. header_len x.reader)
    header_buf ← poll_header
    if length header_buf == 0
        then pure none
        else if not (length header_buf == len)
        then fail (ProtocolError.header_too_short len (length header_buf))
        else read_whole_header key header_buf

  -- The turn of the loop of `poll_read_decrypted` in the state ReadHeader.
  unfoldable pub turn_read_header : List ℕ → Polled e c (Option (List ℕ))
  turn_read_header key = do
    length ← poll_read_header key
    elim length [
      | none ↦ pure (some [])
      | some n ↦ do
        _ ← update_reader e c (λ r. record r {
          buffer = [];
          state = DecryptReadState.read_data n;
          has_handshaked = true;
        })
        pure none
    ]

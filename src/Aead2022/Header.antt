-- ===== src/Aead2022/Header.antt =====
-- The header chunk of a stream of AEAD 2022: what `poll_read_header` and the state AssembleHeader of
-- crates/shadowsocks/src/relay/tcprelay/aead_2022.rs read and write. The time of the clock, in seconds,
-- is an argument.
pub mod RoundTrip
use mobile_android_obfuscati.Common.{
  ℕ, ◌+◌, ◌-◌, ◌%◌, ◌==◌, ltb, not, List, [], ◌∷◌, ◌++◌, length, if◌then◌else◌, Option, none, some,
}
use mobile_android_obfuscati.Common.{Result, ok, err, ◌>>=◌, IoErrorKind}
use mobile_android_obfuscati.Common.Bytes.{be_bytes, put_uint, get_u8, get_uint, read_exact}
use mobile_android_obfuscati.Replay.ReplayProtector.{server_stream_timestamp_max_diff}

-- crates/shadowsocks/src/relay/tcprelay/crypto_io.rs
pub data StreamType : Type 0 where
  client server : StreamType

pub data ProtocolError : Type 0 where
  io_error : IoErrorKind → ProtocolError
  header_too_short : ℕ → ℕ → ProtocolError
  missing_extended_identity_header : ProtocolError
  invalid_client_user : List ℕ → ProtocolError
  decrypt_header_chunk_error decrypt_data_error decrypt_length_error : ProtocolError
  invalid_stream_type : ℕ → ℕ → ProtocolError
  invalid_timestamp : ℕ → ℕ → ProtocolError

abbrev pub abs_diff : ℕ → ℕ → ℕ
abs_diff a b = (a - b) + (b - a)

-- A client receives a salt of the request.
abbrev pub request_salt_len : StreamType → ℕ → ℕ
request_salt_len StreamType.client salt_len = salt_len
request_salt_len StreamType.server salt_len = 0

-- A client receives from a server, so that the type is 1.
abbrev pub expected_stream_type : StreamType → ℕ
expected_stream_type StreamType.client = 1
expected_stream_type StreamType.server = 0

abbrev pub sent_stream_type : StreamType → ℕ
sent_stream_type StreamType.client = 0
sent_stream_type StreamType.server = 1

-- The salt of the request, of `salt_size` bytes, and the length of the data.
unfoldable pub parse_fields : ℕ → List ℕ → Result ProtocolError (Option (List ℕ) × ℕ)
parse_fields salt_size header =
    if ltb 0 salt_size
    then (do
      (salt, r) ← read_exact (ProtocolError.io_error IoErrorKind.unexpected_eof) salt_size header
      (data_length, rest) ← get_uint 2 0 r
      ok (some salt, data_length))
    else do (data_length, rest) ← get_uint 2 0 header; ok (none, data_length)

-- The decrypted header off a cursor.
unfoldable pub parse_header :
    StreamType → ℕ → ℕ → List ℕ → Result ProtocolError (Option (List ℕ) × ℕ)
parse_header ty salt_size now header = do
  (found_type, r1) ← get_u8 header
  if not (found_type == expected_stream_type ty)
      then err (ProtocolError.invalid_stream_type (expected_stream_type ty) found_type)
      else do
        (timestamp, r2) ← get_uint 8 0 r1
        if ltb server_stream_timestamp_max_diff (abs_diff now timestamp)
            then err (ProtocolError.invalid_timestamp timestamp now)
            else parse_fields salt_size r2

abbrev pub salt_bytes : Option (List ℕ) → List ℕ
salt_bytes none = []
salt_bytes (some salt) = salt

-- What a writer puts into the header before it encrypts it.
unfoldable pub make_header : StreamType → ℕ → Option (List ℕ) → ℕ → List ℕ
make_header ty now request_salt data_length =
    sent_stream_type ty ∷ put_uint 8 now (salt_bytes request_salt ++ be_bytes (data_length % 65536))

-- ===== src/Aead2022/Header/RoundTrip.antt =====
-- The header that a writer makes is read by a reader at the other end.
use mathlib.Core.List.{append_assoc}
use mobile_android_obfuscati.Common.{
  ℕ, ◌+◌, ◌%◌, ◌^◌, ◌≤◌, ◌<◌, ◌≡◌, ◌==◌, ltb, true, refl, arith, List, ◌++◌, le→ltb, length,
  length-append, Option, none, some,
}
use mobile_android_obfuscati.Common.{ok, IoErrorKind}
use mobile_android_obfuscati.Common.Bytes.{
  be_bytes, put_uint, length-put_uint, put_uint-append, get_u8, get_uint, get_uint-put_uint,
  get_uint-be_bytes, read_exact_of,
}
use mobile_android_obfuscati.Aead2022.Header.{
  StreamType, ProtocolError, abs_diff, request_salt_len, expected_stream_type, sent_stream_type,
  parse_fields, parse_header, salt_bytes, make_header,
}
use mobile_android_obfuscati.Replay.ReplayProtector.{server_stream_timestamp_max_diff}

abbrev pub peer : StreamType → StreamType
peer StreamType.client = StreamType.server
peer StreamType.server = StreamType.client

-- A server answers with the salt of the request, a client sends none.
abbrev pub SaltFits : StreamType → ℕ → Option (List ℕ) → Type 0
SaltFits StreamType.client salt_len none = Unit
SaltFits StreamType.client salt_len (some salt) = ⊥
SaltFits StreamType.server salt_len none = ⊥
SaltFits StreamType.server salt_len (some salt) = (0 < salt_len) × (length salt ≡ salt_len)

pub length-make_header :
    (ty : StreamType) (salt_len now n : ℕ) (request_salt : Option (List ℕ))
    → SaltFits ty salt_len request_salt
    → length (make_header ty now request_salt n) ≡ 1 + 8 + request_salt_len (peer ty) salt_len + 2
unfolding make_header
length-make_header StreamType.client salt_len now n none fits =
    omega (arith, length-put_uint 8 now (be_bytes (n % 65536)))
length-make_header StreamType.server salt_len now n (some salt) fits = omega (
  arith,
  length-put_uint 8 now (salt ++ be_bytes (n % 65536)),
  length-append salt (be_bytes (n % 65536)),
)
length-make_header StreamType.client salt_len now n (some salt) fits = elim fits [ ]
length-make_header StreamType.server salt_len now n none fits = elim fits [ ]

parse_fields_lem :
    (ty : StreamType) (salt_len n : ℕ) (request_salt : Option (List ℕ)) (rest : List ℕ)
    → SaltFits ty salt_len request_salt
    → n < 65536
    → parse_fields
        (request_salt_len (peer ty) salt_len)
        (salt_bytes request_salt ++ (be_bytes (n % 65536) ++ rest))
      ≡ ok (request_salt, n)
unfolding parse_fields
parse_fields_lem StreamType.client salt_len n none rest fits h = rw (get_uint-be_bytes n rest h)
parse_fields_lem StreamType.server salt_len n (some salt) rest (pos, len) h =
    let some_salt : ltb 0 salt_len ≡ true = ground arith in
    rw (
      some_salt,
      read_exact_of (ProtocolError.io_error IoErrorKind.unexpected_eof) salt_len salt
          (be_bytes (n % 65536) ++ rest) len,
      get_uint-be_bytes n rest h,
    )
parse_fields_lem StreamType.client salt_len n (some salt) rest fits h = elim fits [ ]
parse_fields_lem StreamType.server salt_len n none rest fits h = elim fits [ ]

same_type : (ty : StreamType) → (sent_stream_type ty == expected_stream_type (peer ty)) ≡ true
same_type StreamType.client = refl
same_type StreamType.server = refl

-- Whatever follows, the header is read as the salt of the request and the length of the data, if the
-- clocks are at most 30 seconds apart.
pub parse_header-make_header :
    (ty : StreamType) (salt_len now now' n : ℕ) (request_salt : Option (List ℕ)) (rest : List ℕ)
    → SaltFits ty salt_len request_salt
    → now < 2 ^ 64
    → abs_diff now' now ≤ 30
    → n < 65536
    → parse_header
        (peer ty)
        (request_salt_len (peer ty) salt_len)
        now'
        (make_header ty now request_salt n ++ rest)
      ≡ ok (request_salt, n)
unfolding parse_header make_header get_u8
parse_header-make_header ty salt_len now now' n request_salt rest fits small timely h =
    let fields = salt_bytes request_salt ++ be_bytes (n % 65536) in
    let timestamp : get_uint {E = ProtocolError} 8 0 (put_uint 8 now fields ++ rest)
        ≡ ok (now, salt_bytes request_salt ++ (be_bytes (n % 65536) ++ rest)) =
      rw
        (
          put_uint-append 8 now fields rest,
          append_assoc (salt_bytes request_salt) (be_bytes (n % 65536)) rest,
        )
        (get_uint-put_uint 8 now (salt_bytes request_salt ++ (be_bytes (n % 65536) ++ rest))
          small) in
    rw (same_type ty, timestamp, le→ltb server_stream_timestamp_max_diff (abs_diff now' now) timely)
      (parse_fields_lem ty salt_len n request_salt rest fits h)

-- ===== src/Examples/Aead2022.antt =====
-- Theorem instances for crates/shadowsocks/src/relay/tcprelay/aead_2022.rs, with the cipher of
-- Examples.Aead, and hashes and block ciphers that keep their input.
mod Headers
use Prim.Native.Nat.{min}
use mobile_android_obfuscati.Common.{
  ℕ, ◌+◌, ◌≤◌, ◌<◌, ◌≡◌, ◌≢◌, refl, sym, arith, All, List, [], ◌∷◌, ◌++◌, length, length-append,
  length-take, length-replicate, replicate, take, Option, none, some, Result, ok, err, IoErrorKind,
}
use mobile_android_obfuscati.Common.Strings.{bytes}
use mobile_android_obfuscati.Common.Bytes.{put_uint, get_u8, get_uint}
use mobile_android_obfuscati.Aead.Async.{Poll}
use mobile_android_obfuscati.Aead.Transport.{
  ReadEvent, WriteEvent, incoming, AreAlive, WritesAreAlive,
}
use mobile_android_obfuscati.Aead.Writer.{drain}
use mobile_android_obfuscati.Aead2022.Identity.{
  Method, Primitives, ServerUser, ServerUserManager, new, add_user, new_user,
  get_user_by_hash-add_user,
}
use mobile_android_obfuscati.Aead2022.Header.{
  StreamType, ProtocolError, abs_diff, make_header, parse_fields, parse_header,
}
use mobile_android_obfuscati.Aead2022.Connection.{Connection, with_user_manager}
use mobile_android_obfuscati.Aead2022.Handshake.{header_len, poll_read_header, read_whole_header}
use mobile_android_obfuscati.Aead2022.Handshake.Agrees.Keys.{KeysAgree}
use mobile_android_obfuscati.Aead2022.Handshake.Rejects.{
  parse_header-Timely, poll_read_header-in_parts,
}
use mobile_android_obfuscati.Aead2022.Reader.Receive.{receive}
use mobile_android_obfuscati.Aead2022.Wire.{Opening}
use mobile_android_obfuscati.Aead2022.Writer
use mobile_android_obfuscati.Aead2022.Writer.{
  assemble_first, assemble, write_out, truncate, poll_write_encrypted, with_identity, make_eih,
  identity_headers,
}
use mobile_android_obfuscati.Aead2022.Writer.Send.{send, starting}
use mobile_android_obfuscati.Aead2022.EndToEnd.{arriving, EndsAgree, receive-send_aead_2022}
use mobile_android_obfuscati.Examples.Aead.Toy.{toy, accepting}

abbrev pub plain_hash : List ℕ → List ℕ
plain_hash key = take 32 (key ++ replicate 32 0)

pub length-plain_hash : (key : List ℕ) → length (plain_hash key) ≡ 32
length-plain_hash key =
    omega (arith, length-take 32 (key ++ replicate 32 0), length-append key (replicate 32 0))

abbrev pub primitives : Primitives
primitives = record {
  hash = plain_hash;
  derive_key = λ material. material;
  encrypt_block = λ method key block. block;
  decrypt_block = λ method key block. block;
  length-hash = length-plain_hash;
  length-encrypt_block = λ method key block h. h;
  decrypt-encrypt_block = λ method key block h. refl;
}

abbrev user_key : List ℕ
user_key = 9 ∷ []

abbrev server_key : List ℕ
server_key = 7 ∷ []

abbrev user : ServerUser
user = new_user primitives (bytes "user") user_key

abbrev users : ServerUserManager
users = add_user user new

-- A client with one identity key, which is the key of the server.
abbrev opening : Opening
opening = record {
  ty = StreamType.client;
  method = Method.aes_128_gcm;
  key = user_key;
  identity_keys = server_key ∷ [];
  nonce = 1 ∷ 2 ∷ [];
  time = 1000;
  request_salt = none;
}

same_key : user.key ≡ user_key
unfolding new_user
same_key = refl

abbrev opening-EndsAgree : EndsAgree toy primitives opening server_key (some users)
opening-EndsAgree = record {
  keys =
      KeysAgree.identified server_key users user refl refl
        (get_user_by_hash-add_user primitives (bytes "user") user_key new) same_key;
  salted = omega arith;
  nonce_len = refl;
  request_salt_fits = tt;
  time_fits = omega arith;
}

abbrev text : List ℕ
text = bytes "hello"

-- The stream takes one byte, makes the writer wait, and takes three more.
abbrev slow : List WriteEvent
slow = WriteEvent.accepts 1 ∷ WriteEvent.pending ∷ WriteEvent.accepts 3 ∷ []

abbrev clock : List ℕ
clock = 1000 ∷ 1001 ∷ 1001 ∷ 1002 ∷ 1002 ∷ []

abbrev sent_bytes : List ℕ
sent_bytes = (send toy (1000 ∷ clock) text (starting toy primitives opening slow)).1.sent

sent_bytes_lem : sent_bytes ≡ (
    1 ∷ 2 ∷ 9 ∷ 0 ∷ 0 ∷ 0 ∷ 0 ∷ 0 ∷ 0 ∷ 0 ∷ 0 ∷ 0 ∷ 0 ∷ 0 ∷ 0 ∷ 0 ∷ 0 ∷ 0 ∷ 0 ∷ 0 ∷ 0 ∷ 0 ∷ 0 ∷ 0
    ∷ 0 ∷ 3 ∷ 232 ∷ 0 ∷ 5 ∷ 9 ∷ 104 ∷ 101 ∷ 108 ∷ 108 ∷ 111 ∷ 10 ∷ [])
unfolding poll_write_encrypted truncate assemble_first assemble write_out drain with_identity
    make_eih identity_headers make_header put_uint new_user
sent_bytes_lem = refl

-- The header arrives in one piece, with the first bytes of the data.
abbrev stream : List ReadEvent
stream =
    ReadEvent.pending
    ∷ ReadEvent.arrived (
        1 ∷ 2 ∷ 9 ∷ 0 ∷ 0 ∷ 0 ∷ 0 ∷ 0 ∷ 0 ∷ 0 ∷ 0 ∷ 0 ∷ 0 ∷ 0 ∷ 0 ∷ 0 ∷ 0 ∷ 0 ∷ 0 ∷ 0 ∷ 0 ∷ 0 ∷ 0
        ∷ 0 ∷ 0 ∷ 3 ∷ 232 ∷ 0 ∷ 5 ∷ 9 ∷ 104 ∷ 101 ∷ [])
    ∷ ReadEvent.pending
    ∷ ReadEvent.arrived (108 ∷ 108 ∷ 111 ∷ 10 ∷ [])
    ∷ []

-- The clock of the server is half a minute behind.
abbrev reads : List (ℕ × ℕ)
reads = (970, 4) ∷ (970, 4) ∷ (971, 4) ∷ (971, 2) ∷ (972, 2) ∷ (972, 2) ∷ (972, 2) ∷ []

abbrev server : Connection toy accepting
server = arriving toy accepting opening server_key (some users) tt stream

whole : header_len server.reader ≤ 32
unfolding with_user_manager
whole = omega arith

receive-send_aead_2022_example : receive toy accepting primitives reads server ≡ text
receive-send_aead_2022_example =
    receive-send_aead_2022 toy accepting primitives opening server_key (some users) clock text slow
      tt stream reads opening-EndsAgree (omega arith) (omega arith) (omega arith) (omega arith)
      (sym sent_bytes_lem) whole refl (omega arith) (omega arith) (omega arith)

short_header : 3 < header_len server.reader
unfolding with_user_manager
short_header = omega arith

-- The header of a client, on a server whose clock is half a minute ahead.
abbrev header : List ℕ
header = 0 ∷ 0 ∷ 0 ∷ 0 ∷ 0 ∷ 0 ∷ 0 ∷ 3 ∷ 232 ∷ 0 ∷ 5 ∷ []

parsed : parse_header StreamType.server 0 1030 header ≡ ok (none, 5)
unfolding parse_header parse_fields get_u8 get_uint
parsed = refl

parse_header-Timely_example :
    (time : ℕ) × (rest left : List ℕ) × (header ≡ 0 ∷ rest)
    × (get_uint {E = ProtocolError} 8 0 rest ≡ ok (time, left))
    × (abs_diff 1030 time ≤ 30)
parse_header-Timely_example = parse_header-Timely StreamType.server 0 1030 header (none, 5) parsed

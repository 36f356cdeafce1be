-- ===== src/UdpRelay/Aead2022.antt =====
-- crates/shadowsocks/src/relay/udprelay/aead_2022.rs: the packets of AEAD 2022 in both directions. The
-- nonce of a packet, its padding and the time of the clock, in seconds, are arguments.
pub mod Cipher
pub mod Client
pub mod Server
pub mod Message
pub mod Payload
use mobile_android_obfuscati.Common.{
  ℕ, ◌+◌, ◌-◌, ◌*◌, ◌%◌, ◌==◌, ltb, not, Bool, true, false, ◌&&◌, List, [], ◌∷◌, ◌++◌, length, take,
  drop, if◌then◌else◌, Option, none, some,
}
use mobile_android_obfuscati.Common.{Result, ok, err, panic, ◌>>=◌}
use mobile_android_obfuscati.Common.Bytes.{get_u8, get_uint}
use mobile_android_obfuscati.Socks5.Error.{Error}
use mobile_android_obfuscati.Socks5.Address.{Address, read_cursor}
use mobile_android_obfuscati.UdpRelay.Aead.{copy_within}
use mobile_android_obfuscati.Aead2022.Identity.{
  Method, method_support_eih, Primitives, ServerUser, ServerUserManager, get_user_by_hash,
}
use mobile_android_obfuscati.Aead2022.Header.{abs_diff}
use mobile_android_obfuscati.UdpRelay.Aead2022.Cipher.{UdpCipher, xor}

pub data ProtocolError : Type 0 where
  packet_too_short : ℕ → ℕ → ProtocolError
  invalid_address : Error → ProtocolError
  decrypt_payload_error : ProtocolError
  invalid_client_user : List ℕ → ProtocolError
  invalid_socket_type : ℕ → ℕ → ProtocolError
  invalid_timestamp : ℕ → ℕ → ProtocolError

-- crates/shadowsocks/src/relay/udprelay/options.rs
pub record UdpSocketControlData : Type 0 where
  pub client_session_id : ℕ
  pub server_session_id : ℕ
  pub packet_id : ℕ
  pub user : Option ServerUser

abbrev pub client_socket_type : ℕ
client_socket_type = 0

abbrev pub server_socket_type : ℕ
server_socket_type = 1

abbrev pub server_packet_timestamp_max_diff : ℕ
server_packet_timestamp_max_diff = 30

abbrev pub is_some {ℓ} : {A : Type ℓ} → Option A → Bool
is_some none = false
is_some (some value) = true

-- Whether a packet to a server has an identity header.
abbrev pub require_eih : Method → Option ServerUserManager → Bool
require_eih method users = method_support_eih method && is_some users

-- `Aes128::new_from_slice` and `Aes256::new_from_slice` with `expect`, and one block: a key of another
-- length panics, and so does a method without AES.
unfoldable pub aes_block :
    (Method → List ℕ → List ℕ → List ℕ) → Method → List ℕ → List ℕ → Result ProtocolError (List ℕ)
aes_block crypt Method.aes_128_gcm key block =
    if length key == 16 then ok (crypt Method.aes_128_gcm key block) else panic
aes_block crypt Method.aes_256_gcm key block =
    if length key == 32 then ok (crypt Method.aes_256_gcm key block) else panic
aes_block crypt Method.chacha20_poly1305 key block = panic

module _ (u : UdpCipher) where
  unfoldable pub get_nonce_len : Method → ℕ
  get_nonce_len Method.aes_128_gcm = 0
  get_nonce_len Method.aes_256_gcm = 0
  get_nonce_len Method.chacha20_poly1305 = u.nonce_len

module _ (u : UdpCipher) (b : Primitives) where
  -- The packet that is sent: the session id and the packet id are its first 16 bytes, behind the nonce.
  unfoldable pub encrypt_aes :
      Method → List ℕ → List ℕ → List ℕ → ℕ → ℕ → Result ProtocolError (List ℕ)
  encrypt_aes method ipsk key packet session_id eih_len = do
    let cipher = u.new method key session_id
    let packet_header = take 16 packet
    let message = drop 16 packet
    let nonce = drop 4 packet_header
    header ← aes_block b.encrypt_block method ipsk packet_header
    ok (header ++ (take eih_len message ++ u.encrypt_packet cipher nonce (drop eih_len message)))

  unfoldable pub encrypt_message :
      Method → List ℕ → List ℕ → List ℕ → ℕ → ℕ → Result ProtocolError (List ℕ)
  encrypt_message Method.chacha20_poly1305 ipsk key packet session_id eih_len =
      let cipher = u.new Method.chacha20_poly1305 key session_id in
      let nonce = take u.nonce_len packet in
      ok (nonce ++ u.encrypt_packet cipher nonce (drop u.nonce_len packet))
  encrypt_message Method.aes_128_gcm ipsk key packet session_id eih_len =
      encrypt_aes Method.aes_128_gcm ipsk key packet session_id eih_len
  encrypt_message Method.aes_256_gcm ipsk key packet session_id eih_len =
      encrypt_aes Method.aes_256_gcm ipsk key packet session_id eih_len

  -- The packet in place, unless it is refused.
  abbrev pub open_packet :
      Option ServerUser → List ℕ → Bool × List ℕ → Result ProtocolError (Option ServerUser × List ℕ)
  open_packet user front (valid, plain) =
      if not valid then err ProtocolError.decrypt_payload_error else ok (user, front ++ plain)

  abbrev pub chosen_user : List ℕ → Option ServerUser → Result ProtocolError ServerUser
  chosen_user eih none = err (ProtocolError.invalid_client_user eih)
  chosen_user eih (some user) = ok user

  -- The user, the key of the cipher, the identity header in place, and the message behind it.
  unfoldable pub identify_user :
      Method
      → List ℕ
      → List ℕ
      → List ℕ
      → Option ServerUserManager
      → Result ProtocolError (Option ServerUser × List ℕ × List ℕ × List ℕ)
  identify_user method key packet_header message none = ok (none, key, [], message)
  identify_user method key packet_header message (some user_manager) =
      if not (method_support_eih method) then ok (none, key, [], message) else do
        block ← aes_block b.decrypt_block method key (take 16 message)
        let eih = xor block packet_header
        user ← chosen_user eih (get_user_by_hash eih user_manager)
        ok (some user, user.key, eih, drop 16 message)

  unfoldable pub decrypt_aes :
      Method
      → List ℕ
      → List ℕ
      → Option ServerUserManager
      → Result ProtocolError (Option ServerUser × List ℕ)
  decrypt_aes method key packet users = do
    packet_header ← aes_block b.decrypt_block method key (take 16 packet)
    (session_id, _) ← get_uint 8 0 packet_header
    (user, cipher_key, eih, message) ← identify_user method key packet_header (drop 16 packet) users
    let cipher = u.new method cipher_key session_id
    open_packet user (packet_header ++ eih) (u.decrypt_packet cipher (drop 4 packet_header) message)

  -- The callers have checked that the packet has the bytes that this takes off it.
  unfoldable pub decrypt_message :
      Method
      → List ℕ
      → List ℕ
      → Option ServerUserManager
      → Result ProtocolError (Option ServerUser × List ℕ)
  decrypt_message Method.chacha20_poly1305 key packet users = do
    let nonce = take u.nonce_len packet
    let message = drop u.nonce_len packet
    (session_id, _) ← get_uint 8 0 message
    let cipher = u.new Method.chacha20_poly1305 key session_id
    open_packet none nonce (u.decrypt_packet cipher nonce message)
  decrypt_message Method.aes_128_gcm key packet users =
      decrypt_aes Method.aes_128_gcm key packet users
  decrypt_message Method.aes_256_gcm key packet users =
      decrypt_aes Method.aes_256_gcm key packet users

-- `cursor.advance`, which panics behind the end.
unfoldable pub advance : ℕ → List ℕ → Result ProtocolError (List ℕ)
advance n r = if ltb (length r) n then panic else ok (drop n r)

abbrev parsed : Result Error (Address × List ℕ) → Result ProtocolError (Address × List ℕ)
parsed (ok read) = ok read
parsed (err failure) = err (ProtocolError.invalid_address failure)
parsed panic = panic

-- The type of the socket and the time, off a cursor, as both directions check them.
unfoldable pub check_header : ℕ → ℕ → List ℕ → Result ProtocolError (List ℕ)
check_header expected now r = do
  (socket_type, r1) ← get_u8 r
  if not (socket_type == expected)
      then err (ProtocolError.invalid_socket_type expected socket_type)
      else do
        (timestamp, r2) ← get_uint 8 0 r1
        if ltb server_packet_timestamp_max_diff (abs_diff now timestamp)
            then err (ProtocolError.invalid_timestamp timestamp now)
            else ok r2

-- The padding and the address off a cursor over `message`, and the payload moved to the start of the buffer.
-- A cursor behind the end reads as one at the end.
unfoldable pub take_payload :
    ℕ
    → List ℕ
    → List ℕ
    → UdpSocketControlData
    → List ℕ
    → Result ProtocolError (ℕ × Address × UdpSocketControlData × List ℕ)
take_payload nonce_len packet message control r = do
  (padding_size, r1) ← get_uint 2 0 r
  (addr, rest) ← parsed (read_cursor (drop padding_size r1))
  let payload_start = length message - length rest
  let payload_len = length message - payload_start
  ok (payload_len, addr, control, copy_within packet (nonce_len + payload_start) payload_len)

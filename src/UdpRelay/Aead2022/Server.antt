-- ===== src/UdpRelay/Aead2022/Server.antt =====
-- crates/shadowsocks/src/relay/udprelay/aead_2022.rs: packets from a server to a client.
pub mod RoundTrip
pub mod Short
use mobile_android_obfuscati.Common.{
  ℕ, ◌+◌, ◌-◌, ◌*◌, ◌%◌, ltb, ◌&&◌, List, [], ◌∷◌, ◌++◌, length, take, drop, if◌then◌else◌, Option,
  none,
}
use mobile_android_obfuscati.Common.{Result, ok, err, ◌>>=◌}
use mobile_android_obfuscati.Common.Bytes.{be_bytes, put_uint, get_uint}
use mobile_android_obfuscati.Socks5.Address.{Address, write_to_buf}
use mobile_android_obfuscati.Aead2022.Identity.{
  Method, method_support_eih, Primitives, ServerUserManager,
}
use mobile_android_obfuscati.ProxyStream.Protocol.{get_aead_2022_padding_size}
use mobile_android_obfuscati.UdpRelay.Aead2022.{
  ProtocolError, UdpSocketControlData, client_socket_type, server_socket_type, require_eih,
  aes_block, get_nonce_len, encrypt_message, decrypt_message, advance, check_header, take_payload,
}
use mobile_android_obfuscati.UdpRelay.Aead2022.Cipher.{UdpCipher, xor}

module _ (u : UdpCipher) (b : Primitives) where
  unfoldable pub encrypt_server_payload_aead_2022 :
      Method
      → List ℕ
      → Address
      → UdpSocketControlData
      → List ℕ
      → List ℕ
      → ℕ
      → ℕ
      → List ℕ
      → Result ProtocolError (List ℕ)
  encrypt_server_payload_aead_2022 method key addr control payload nonce now random padding = do
    let padding_size = get_aead_2022_padding_size payload random
    let nonce_size = get_nonce_len u method
    let ids = put_uint 8 control.server_session_id (put_uint 8 control.packet_id [])
    let fields =
        server_socket_type
        ∷ put_uint 8 now (put_uint 8 control.client_session_id (be_bytes (padding_size % 65536)))
    dst ← write_to_buf addr (take nonce_size nonce ++ (ids ++ (fields ++ padding)))
    encrypt_message u b method key key (dst ++ payload) control.server_session_id 0

  -- A packet that is opened without the bytes of the client's session id panics.
  unfoldable pub decrypt_server_payload_aead_2022 :
      Method
      → List ℕ
      → List ℕ
      → ℕ
      → Result ProtocolError (ℕ × Address × UdpSocketControlData × List ℕ)
  decrypt_server_payload_aead_2022 method key payload now =
      let nonce_len = get_nonce_len u method in
      let header_len = nonce_len + u.tag_len + 8 + 8 + 1 + 8 + 2 in
      if ltb (length payload) header_len
      then err (ProtocolError.packet_too_short header_len (length payload))
      else do
        (user, packet) ← decrypt_message u b method key payload none
        let message = drop nonce_len (take (length payload - u.tag_len) packet)
        (server_session_id, r1) ← get_uint 8 0 message
        (packet_id, r2) ← get_uint 8 0 r1
        r3 ← check_header server_socket_type now r2
        (client_session_id, r4) ← get_uint 8 0 r3
        let control : UdpSocketControlData = record {
          client_session_id = client_session_id;
          server_session_id = server_session_id;
          packet_id = packet_id;
          user = none;
        }
        take_payload nonce_len packet message control r4

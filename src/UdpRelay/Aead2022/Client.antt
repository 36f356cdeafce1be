-- ===== src/UdpRelay/Aead2022/Client.antt =====
-- crates/shadowsocks/src/relay/udprelay/aead_2022.rs: packets from a client to a server.
pub mod RoundTrip
use mobile_android_obfuscati.Common.{
  ℕ, ◌+◌, ◌-◌, ◌*◌, ◌%◌, ltb, ◌&&◌, List, [], ◌∷◌, ◌++◌, length, take, drop, if◌then◌else◌, Option,
  none,
}
use mobile_android_obfuscati.Common.{Result, ok, err, ◌>>=◌}
use mobile_android_obfuscati.Common.Bytes.{be_bytes, put_uint, get_uint}
use mobile_android_obfuscati.Socks5.Address.{Address, write_to_buf}
use mobile_android_obfuscati.Aead2022.Identity.{
  Method, method_support_eih, Primitives, ServerUserManager,
}
use mobile_android_obfuscati.ProxyStream.Protocol.{get_aead_2022_padding_size}
use mobile_android_obfuscati.UdpRelay.Aead2022.{
  ProtocolError, UdpSocketControlData, client_socket_type, server_socket_type, require_eih,
  aes_block, get_nonce_len, encrypt_message, decrypt_message, advance, check_header, take_payload,
}
use mobile_android_obfuscati.UdpRelay.Aead2022.Cipher.{UdpCipher, xor}

module _ (u : UdpCipher) (b : Primitives) where
  abbrev pub next_key : List ℕ → List (List ℕ) → List ℕ
  next_key key [] = key
  next_key key (ipsk ∷ keys) = ipsk

  unfoldable pub make_eih : Method → List ℕ → List ℕ → List ℕ → Result ProtocolError (List ℕ)
  make_eih method ipsk ipskn session_id_packet_id =
      aes_block b.encrypt_block method ipsk (xor (take 16 (b.hash ipskn)) session_id_packet_id)

  -- The loop over the identity keys, each with the key behind it; the last one with the key itself.
  unfoldable pub packet_identities :
      Method → List ℕ → List ℕ → List (List ℕ) → Result ProtocolError (List ℕ)
  packet_identities method key session_id_packet_id [] = ok []
  packet_identities method key session_id_packet_id (ipsk ∷ keys) = do
    eih ← make_eih method ipsk (next_key key keys) session_id_packet_id
    rest ← packet_identities method key session_id_packet_id keys
    ok (eih ++ rest)

  -- `dst`, from which `generate_nonce` has made `nonce` if the method prepends one. The padding is
  -- `padding`, of the size that `get_aead_2022_padding_size` has chosen.
  unfoldable pub encrypt_client_payload_aead_2022 :
      Method
      → List ℕ
      → Address
      → UdpSocketControlData
      → List (List ℕ)
      → List ℕ
      → List ℕ
      → ℕ
      → ℕ
      → List ℕ
      → Result ProtocolError (List ℕ)
  encrypt_client_payload_aead_2022 method key addr control identity_keys payload nonce now random
        padding =
      do
        let padding_size = get_aead_2022_padding_size payload random
        let nonce_size = get_nonce_len u method
        let require_eih = method_support_eih method && ltb 0 (length identity_keys)
        let eih_size = if require_eih then length identity_keys * 16 else 0
        let ids = put_uint 8 control.client_session_id (put_uint 8 control.packet_id [])
        eihs ← if require_eih then packet_identities method key ids identity_keys else ok []
        let fields = client_socket_type ∷ put_uint 8 now (be_bytes (padding_size % 65536))
        dst ← write_to_buf addr (take nonce_size nonce ++ (ids ++ (eihs ++ (fields ++ padding))))
        let ipsk = next_key key identity_keys
        encrypt_message u b method ipsk key (dst ++ payload) control.client_session_id eih_size

  -- The length of the payload, the address, the control data, and the buffer that starts with the payload.
  unfoldable pub decrypt_client_payload_aead_2022 :
      Method
      → List ℕ
      → List ℕ
      → Option ServerUserManager
      → ℕ
      → Result ProtocolError (ℕ × Address × UdpSocketControlData × List ℕ)
  decrypt_client_payload_aead_2022 method key payload users now =
      let nonce_len = get_nonce_len u method in
      let eih_len : ℕ = if require_eih method users then 16 else 0 in
      let header_len = nonce_len + u.tag_len + 8 + 8 + eih_len + 1 + 8 + 2 in
      if ltb (length payload) header_len
      then err (ProtocolError.packet_too_short header_len (length payload))
      else do
        (user, packet) ← decrypt_message u b method key payload users
        let message = drop nonce_len (take (length payload - u.tag_len) packet)
        (client_session_id, r1) ← get_uint 8 0 message
        (packet_id, r2) ← get_uint 8 0 r1
        r3 ← advance eih_len r2
        r4 ← check_header client_socket_type now r3
        let control : UdpSocketControlData = record {
          client_session_id = client_session_id;
          server_session_id = 0;
          packet_id = packet_id;
          user = user;
        }
        take_payload nonce_len packet message control r4

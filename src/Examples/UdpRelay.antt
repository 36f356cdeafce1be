-- ===== src/Examples/UdpRelay.antt =====
-- Theorem instances for crates/shadowsocks/src/relay/udprelay/aead_2022.rs, with a cipher that appends
-- the first byte of its key as the tag, and the hashes and block ciphers of Examples.Aead2022.
use mobile_android_obfuscati.Common.{
  ℕ, ◌≡◌, refl, arith, List, [], ◌∷◌, ◌++◌, length-append, take, take-length_append, replicate,
  get_or, none, some, ok, panic,
}
use mobile_android_obfuscati.Common.Strings.{bytes}
use mobile_android_obfuscati.Common.Utf8.{is_utf8}
use mobile_android_obfuscati.Socks5.Address.{Address}
use mobile_android_obfuscati.Socks5.Address.RoundTrip.{IsWire}
use mobile_android_obfuscati.Aead2022.Identity.{
  Method, ServerUser, ServerUserManager, new, add_user, new_user, get_user_by_hash-add_user,
}
use mobile_android_obfuscati.ProxyStream.Protocol.{get_aead_2022_padding_size}
use mobile_android_obfuscati.UdpRelay.Aead2022.{
  UdpSocketControlData, server_socket_type, get_nonce_len, encrypt_message,
}
use mobile_android_obfuscati.UdpRelay.Aead2022.Message.{ids}
use mobile_android_obfuscati.UdpRelay.Aead2022.Server.Short.{decrypt_server_payload-panics}
use mobile_android_obfuscati.Common.Bytes.{put_uint}
use mobile_android_obfuscati.UdpRelay.Aead2022.Cipher.{UdpCipher}
use mobile_android_obfuscati.UdpRelay.Aead2022.Client.{
  encrypt_client_payload_aead_2022, decrypt_client_payload_aead_2022,
}
use mobile_android_obfuscati.UdpRelay.Aead2022.Client.RoundTrip.{decrypt-encrypt_client_payload}
use mobile_android_obfuscati.UdpRelay.Aead2022.Server.{
  encrypt_server_payload_aead_2022, decrypt_server_payload_aead_2022,
}
use mobile_android_obfuscati.UdpRelay.Aead2022.Server.RoundTrip.{decrypt-encrypt_server_payload}
use mobile_android_obfuscati.UdpRelay.Aead2022.Message.Keys.{PacketKeys}
use mobile_android_obfuscati.Examples.Aead.Toy.{is_valid, is_valid_tag}
use mobile_android_obfuscati.Examples.Aead2022.{primitives}

abbrev packets : UdpCipher
packets = record {
  Cipher = ℕ;
  nonce_len = 2;
  tag_len = 1;
  new = λ method key session_id. get_or key 0 0;
  encrypt_packet = λ tag nonce p. p ++ tag ∷ [];
  decrypt_packet = λ tag nonce m. (is_valid tag m, m);
  new-chacha20_poly1305 = λ key session_id other. refl;
  length-encrypt_packet = λ tag nonce p. length-append p (tag ∷ []);
  decrypt-encrypt_packet = λ tag nonce p. (is_valid_tag tag p, take-length_append p (tag ∷ []));
}

abbrev user_key : List ℕ
user_key = replicate 16 9

abbrev server_key : List ℕ
server_key = replicate 16 7

abbrev user : ServerUser
user = new_user primitives (bytes "user") user_key

abbrev users : ServerUserManager
users = add_user user new

keys :
    PacketKeys primitives Method.aes_128_gcm user_key
      (server_key ∷ [])
      server_key
      (some users)
      (some user)
unfolding new_user
keys =
    PacketKeys.identified server_key users user refl refl (ground arith)
      (get_user_by_hash-add_user primitives (bytes "user") user_key new) refl

-- A packet to example.org:53 in the session 5.
abbrev target : Address
target = Address.domain_name_address (bytes "example.org") 53

target-IsWire : IsWire target
unfolding is_utf8
target-IsWire = (omega arith, refl, omega arith)

abbrev control : UdpSocketControlData
control = record { client_session_id = 5; server_session_id = 6; packet_id = 1; user = none }

decrypt-encrypt_client_payload_example :
    (packet buffer : List ℕ) × (encrypt_client_payload_aead_2022 packets primitives
        Method.aes_128_gcm user_key target control
        (server_key ∷ [])
        (1 ∷ 2 ∷ 3 ∷ [])
        []
        1000
        77
        []
      ≡ ok packet)
    × (decrypt_client_payload_aead_2022 packets primitives Method.aes_128_gcm server_key packet
          (some users)
          1020
        ≡ ok (
          3,
          target,
          record { client_session_id = 5; server_session_id = 0; packet_id = 1; user = some user },
          buffer,
        ))
    × (take 3 buffer ≡ 1 ∷ 2 ∷ 3 ∷ [])
unfolding get_nonce_len get_aead_2022_padding_size
decrypt-encrypt_client_payload_example =
    decrypt-encrypt_client_payload packets primitives Method.aes_128_gcm user_key (server_key ∷ [])
      server_key (some users) (some user) target control (1 ∷ 2 ∷ 3 ∷ []) [] [] 1020 1000 77 keys
      refl target-IsWire (ground arith) refl (omega arith) (omega arith) (omega arith) (omega arith)

decrypt-encrypt_server_payload_example :
    (packet buffer : List ℕ) × (encrypt_server_payload_aead_2022 packets primitives
        Method.chacha20_poly1305 user_key target control
        (1 ∷ 2 ∷ 3 ∷ [])
        (4 ∷ 4 ∷ [])
        1000
        77
        []
      ≡ ok packet)
    × (decrypt_server_payload_aead_2022 packets primitives Method.chacha20_poly1305 user_key packet
          1020
        ≡ ok (
          3,
          target,
          record { client_session_id = 5; server_session_id = 6; packet_id = 1; user = none },
          buffer,
        ))
    × (take 3 buffer ≡ 1 ∷ 2 ∷ 3 ∷ [])
unfolding get_nonce_len get_aead_2022_padding_size
decrypt-encrypt_server_payload_example =
    decrypt-encrypt_server_payload packets primitives Method.chacha20_poly1305 user_key target
      control (1 ∷ 2 ∷ 3 ∷ []) (4 ∷ 4 ∷ []) [] 1020 1000 77 tt refl target-IsWire (ground arith)
      refl (omega arith) (omega arith) (omega arith) (omega arith) (omega arith)

-- The packet of a server that ends behind two bytes of the client's id.
decrypt_server_payload-panics_example :
    (packet : List ℕ) × (encrypt_message packets primitives Method.aes_128_gcm user_key user_key
        (ids 6 1 ++ server_socket_type ∷ put_uint 8 1000 (0 ∷ 0 ∷ []))
        6
        0
      ≡ ok packet)
    × (decrypt_server_payload_aead_2022 packets primitives Method.aes_128_gcm user_key packet 1020
        ≡ panic)
unfolding get_nonce_len
decrypt_server_payload-panics_example =
    decrypt_server_payload-panics packets primitives Method.aes_128_gcm user_key 6 1 1020 1000 []
      (0 ∷ 0 ∷ []) refl refl (omega arith) (omega arith) (omega arith) (omega arith) (omega arith)
      (omega arith)

-- ===== src/UdpRelay/Aead2022/Client/RoundTrip.antt =====
-- A packet of a client is decrypted by its server.
use mathlib.Core.List.{append_assoc}
use mobile_android_obfuscati.Common.{
  ℕ, ◌+◌, ◌-◌, ◌%◌, ◌^◌, ◌≤◌, ◌<◌, ◌≡◌, sym, ap, ◌∙◌, arith, ltb, le→ltb, false, List, ◌∷◌, ◌++◌,
  length, take, drop, length-append, if◌then◌else◌, drop-length_append, All, Option,
}
use mobile_android_obfuscati.Common.{ok}
use mobile_android_obfuscati.Common.Bytes.{
  IsByte, be_bytes, put_uint, length-put_uint, put_uint-append, get_uint, get_uint-put_uint,
}
use mobile_android_obfuscati.Socks5.Address.{Address}
use mobile_android_obfuscati.Socks5.Address.RoundTrip.{IsWire, encoding, write_to_buf-encoding}
use mobile_android_obfuscati.Aead2022.Header.{abs_diff}
use mobile_android_obfuscati.Aead2022.Identity.{Method, Primitives, ServerUser, ServerUserManager}
use mobile_android_obfuscati.ProxyStream.Protocol.{get_aead_2022_padding_size}
use mobile_android_obfuscati.UdpRelay.Aead.{copy_within}
use mobile_android_obfuscati.UdpRelay.Aead2022.{
  ProtocolError, UdpSocketControlData, client_socket_type, require_eih, get_nonce_len,
  encrypt_message,
}
use mobile_android_obfuscati.UdpRelay.Aead2022.Cipher.{UdpCipher}
use mobile_android_obfuscati.UdpRelay.Aead2022.Client.{
  encrypt_client_payload_aead_2022, decrypt_client_payload_aead_2022,
}
use mobile_android_obfuscati.UdpRelay.Aead2022.Message.{ids, length-ids, ids-append, Identities}
use mobile_android_obfuscati.UdpRelay.Aead2022.Message.Keys.{PacketKeys, identities-PacketKeys}
use mobile_android_obfuscati.UdpRelay.Aead2022.Message.Opens.{Opens, encrypt_message-IsOpened}
use mobile_android_obfuscati.UdpRelay.Aead2022.Payload.{
  short, take-length, padded, check_header_lem, advance-length, take_payload-padded, moved,
}

-- What stands behind the identity header, as a client writes it.
abbrev client_body : ℕ → List ℕ → Address → List ℕ → List ℕ
client_body time padding addr payload =
    client_socket_type ∷ put_uint 8 time (padded padding addr payload)

laid_out :
    (time : ℕ) (nonce sp eih padding address payload : List ℕ)
    → let fields = client_socket_type ∷ put_uint 8 time (be_bytes (length padding % 65536)) in
      ((nonce ++ (sp ++ (eih ++ (fields ++ padding)))) ++ address) ++ payload
      ≡ nonce
        ++ (sp
            ++ (eih
                ++ client_socket_type
                  ∷ put_uint 8 time
                      (be_bytes (length padding % 65536) ++ (padding ++ (address ++ payload)))))
laid_out time nonce sp eih padding address payload = simp (append_assoc, put_uint-append)

module _ (u : UdpCipher) (b : Primitives) where
  encrypt_client_payload_lem :
      (method : Method) (key : List ℕ) (identity_keys : List (List ℕ)) (reader_key : List ℕ)
      (users : Option ServerUserManager) (user : Option ServerUser) (addr : Address)
      (control : UdpSocketControlData) (payload nonce padding : List ℕ) (time random : ℕ)
      (i : Identities u b method key identity_keys reader_key users user
        (ids control.client_session_id control.packet_id))
      → IsWire addr
      → length nonce ≡ get_nonce_len u method
      → length padding ≡ get_aead_2022_padding_size payload random
      → encrypt_client_payload_aead_2022 u b method key addr control identity_keys payload nonce
          time random padding
        ≡ encrypt_message u b method reader_key key
            (nonce
              ++ (ids control.client_session_id control.packet_id
                  ++ (i.eih ++ client_body time padding addr payload)))
            control.client_session_id
            (length i.eih)
  unfolding encrypt_client_payload_aead_2022
  encrypt_client_payload_lem method key identity_keys reader_key users user addr control payload
        nonce padding time random i w len pad =
      let fields = client_socket_type ∷ put_uint 8 time (be_bytes (length padding % 65536)) in
      let sp = ids control.client_session_id control.packet_id in
      let all : take (get_nonce_len u method) nonce ≡ nonce =
        ap (λ n. take n nonce) (sym len) ∙ take-length nonce in
      rw (
        all,
        ← pad,
        i.eih_is,
        write_to_buf-encoding {E = ProtocolError} addr
            (nonce ++ (sp ++ (i.eih ++ (fields ++ padding)))) w,
        i.eih_size_is,
        i.ipsk_is,
        laid_out time nonce sp i.eih padding (encoding addr) payload,
      )

  decrypt_client_payload_lem :
      (method : Method) (reader_key : List ℕ) (users : Option ServerUserManager)
      (user : Option ServerUser) (addr : Address) (s p now time : ℕ)
      (payload nonce hash padding enc : List ℕ)
      (o : Opens u b method reader_key users user enc
        (nonce ++ (ids s p ++ (hash ++ client_body time padding addr payload))))
      → length nonce ≡ get_nonce_len u method
      → length hash ≡ (if require_eih method users then 16 else 0)
      → IsWire addr
      → All IsByte (encoding addr ++ payload)
      → length padding < 65536
      → s < 2 ^ 64
      → p < 2 ^ 64
      → time < 2 ^ 64
      → abs_diff now time ≤ 30
      → (front : List ℕ) × (decrypt_client_payload_aead_2022 u b method reader_key enc users now
          ≡ ok (
            length payload,
            addr,
            record { client_session_id = s; server_session_id = 0; packet_id = p; user = user },
            copy_within o.packet
                (length nonce + (length front + length (encoding addr)))
                (length payload),
          ))
        × (ids s p ++ (hash ++ client_body time padding addr payload)
            ≡ front ++ (encoding addr ++ payload))
  unfolding decrypt_client_payload_aead_2022
  decrypt_client_payload_lem method reader_key users user addr s p now time payload nonce hash
        padding enc o len size w bytes short small_s small_p small timely =
      let body = client_body time padding addr payload in
      let plain = nonce ++ (ids s p ++ (hash ++ body)) in
      let front =
        ids s p
        ++ (hash
            ++ (client_socket_type ∷ put_uint 8 time (be_bytes (length padding % 65536)))
            ++ padding) in
      let whole : ids s p ++ (hash ++ body) ≡ front ++ (encoding addr ++ payload) =
        simp (append_assoc, put_uint-append) in
      let enough : ltb (length enc) (
            get_nonce_len u method
            + u.tag_len
            + 8
            + 8
            + (if require_eih method users then 16 else 0)
            + 1
            + 8
            + 2)
          ≡ false =
        le→ltb _ _ (
          omega (
            arith,
            o.length_is,
            length-append nonce (ids s p ++ (hash ++ body)),
            length-append (ids s p) (hash ++ body),
            length-append hash body,
            length-ids s p,
            length-put_uint 8 time (padded padding addr payload),
          )) in
      let cut : drop (length nonce) (take (length enc - u.tag_len) o.packet)
          ≡ ids s p ++ (hash ++ body) =
        ap (drop (length nonce)) o.packet_is
        ∙ drop-length_append nonce (ids s p ++ (hash ++ body)) in
      let first : get_uint {E = ProtocolError} 8 0 (ids s p ++ (hash ++ body))
          ≡ ok (s, put_uint 8 p (hash ++ body)) =
        ap (get_uint 8 0) (ids-append s p (hash ++ body))
        ∙ get_uint-put_uint 8 s (put_uint 8 p (hash ++ body)) small_s in
      (
        front,
        rw
            (
              enough,
              o.opens,
              ← len,
              cut,
              first,
              get_uint-put_uint {E = ProtocolError} 8 p (hash ++ body) small_p,
              ← size,
              advance-length hash body,
              check_header_lem client_socket_type now time (padded padding addr payload) small
                  timely,
            )
            (take_payload-padded (length nonce) o.packet (ids s p ++ (hash ++ body)) front padding
              addr payload
              record { client_session_id = s; server_session_id = 0; packet_id = p; user = user }
              whole short w bytes),
        whole,
      )

  -- Where the keys agree, the ids and the times fit into 64 bits, the clocks are at most 30 seconds apart,
  -- the padding has the size that is chosen for the payload, the nonce has the length that the method prepends, and the
  -- address and the payload are bytes on the wire, a server decrypts what a client encrypts: it has the
  -- address, the ids, the user where there is an identity header, the length of the payload, and a
  -- buffer that starts with the payload.
  pub decrypt-encrypt_client_payload :
      (method : Method) (key : List ℕ) (identity_keys : List (List ℕ)) (reader_key : List ℕ)
      (users : Option ServerUserManager) (user : Option ServerUser) (addr : Address)
      (control : UdpSocketControlData) (payload nonce padding : List ℕ) (now time random : ℕ)
      → PacketKeys b method key identity_keys reader_key users user
      → length nonce ≡ get_nonce_len u method
      → IsWire addr
      → All IsByte (encoding addr ++ payload)
      → length padding ≡ get_aead_2022_padding_size payload random
      → control.client_session_id < 2 ^ 64
      → control.packet_id < 2 ^ 64
      → time < 2 ^ 64
      → abs_diff now time ≤ 30
      → (packet buffer : List ℕ) × (encrypt_client_payload_aead_2022 u b method key addr control
            identity_keys payload nonce time random padding
          ≡ ok packet)
        × (decrypt_client_payload_aead_2022 u b method reader_key packet users now
            ≡ ok (
              length payload,
              addr,
              record {
                client_session_id = control.client_session_id;
                server_session_id = 0;
                packet_id = control.packet_id;
                user = user;
              },
              buffer,
            ))
        × (take (length payload) buffer ≡ payload)
  decrypt-encrypt_client_payload method key identity_keys reader_key users user addr control payload
        nonce padding now time random keys len w bytes pad small_s small_p small timely =
      let s = control.client_session_id in
      let p = control.packet_id in
      let i = identities-PacketKeys u b s p keys in
      let body = client_body time padding addr payload in
      let (enc, encrypts, o) =
        encrypt_message-IsOpened u b method key identity_keys reader_key users user s p i nonce body
          len small_s in
      let (front, decrypts, whole) =
        decrypt_client_payload_lem method reader_key users user addr s p now time payload nonce
          i.hash padding enc o len (i.hash_is ∙ i.length_is) w bytes
          (short payload padding random pad) small_s small_p small timely in
      let plain = nonce ++ (front ++ (encoding addr ++ payload)) in
      let same = ap (λ t. nonce ++ t) whole in
      let size : length enc - u.tag_len ≡ length plain =
        omega (arith, o.length_is, ap length same) in
      (
        enc,
        _,
        encrypt_client_payload_lem method key identity_keys reader_key users user addr control
              payload nonce padding time random i w len pad
            ∙ encrypts,
        decrypts,
        moved o.packet nonce front (encoding addr) payload _ (o.packet_is ∙ same) size,
      )

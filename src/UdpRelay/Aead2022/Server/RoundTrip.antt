-- ===== src/UdpRelay/Aead2022/Server/RoundTrip.antt =====
-- A packet of a server is decrypted by its client.
use mathlib.Core.List.{append_assoc}
use mobile_android_obfuscati.Common.{
  ℕ, ◌+◌, ◌-◌, ◌%◌, ◌^◌, ◌≤◌, ◌<◌, ◌≡◌, refl, sym, ap, ◌∙◌, arith, ltb, le→ltb, false, List, [],
  ◌∷◌, ◌++◌, length, take, drop, length-append, drop-length_append, All, none,
}
use mobile_android_obfuscati.Common.{ok}
use mobile_android_obfuscati.Common.Bytes.{
  IsByte, be_bytes, put_uint, length-put_uint, put_uint-append, get_uint, get_uint-put_uint,
}
use mobile_android_obfuscati.Socks5.Address.{Address}
use mobile_android_obfuscati.Socks5.Address.RoundTrip.{IsWire, encoding, write_to_buf-encoding}
use mobile_android_obfuscati.Aead2022.Header.{abs_diff}
use mobile_android_obfuscati.Aead2022.Identity.{Method, Primitives}
use mobile_android_obfuscati.ProxyStream.Protocol.{get_aead_2022_padding_size}
use mobile_android_obfuscati.UdpRelay.Aead.{copy_within}
use mobile_android_obfuscati.UdpRelay.Aead2022.{
  ProtocolError, UdpSocketControlData, server_socket_type, require_eih, get_nonce_len,
  encrypt_message,
}
use mobile_android_obfuscati.UdpRelay.Aead2022.Cipher.{UdpCipher}
use mobile_android_obfuscati.UdpRelay.Aead2022.Server.{
  encrypt_server_payload_aead_2022, decrypt_server_payload_aead_2022,
}
use mobile_android_obfuscati.UdpRelay.Aead2022.Message.{ids, length-ids, ids-append, KeyFits}
use mobile_android_obfuscati.UdpRelay.Aead2022.Message.Keys.{no_identity}
use mobile_android_obfuscati.UdpRelay.Aead2022.Message.Opens.{Opens, encrypt_message-IsOpened}
use mobile_android_obfuscati.UdpRelay.Aead2022.Payload.{
  short, take-length, padded, check_header_lem, take_payload-padded, moved,
}

-- What stands behind the ids, as a server writes it.
abbrev server_body : ℕ → ℕ → List ℕ → Address → List ℕ → List ℕ
server_body time client_session_id padding addr payload =
    server_socket_type
    ∷ put_uint 8 time (put_uint 8 client_session_id (padded padding addr payload))

abbrev server_fields : ℕ → ℕ → List ℕ → List ℕ
server_fields time client_session_id padding =
    server_socket_type
    ∷ put_uint 8 time (put_uint 8 client_session_id (be_bytes (length padding % 65536)))

laid_out :
    (time c : ℕ) (nonce sp padding : List ℕ) (addr : Address) (payload : List ℕ)
    → ((nonce ++ (sp ++ (server_fields time c padding ++ padding))) ++ encoding addr) ++ payload
      ≡ nonce ++ (sp ++ server_body time c padding addr payload)
laid_out time c nonce sp padding addr payload = simp (append_assoc, put_uint-append)

pub no_users : (method : Method) → require_eih method none ≡ false
no_users Method.aes_128_gcm = refl
no_users Method.aes_256_gcm = refl
no_users Method.chacha20_poly1305 = refl

module _ (u : UdpCipher) (b : Primitives) where
  encrypt_server_payload_lem :
      (method : Method) (key : List ℕ) (addr : Address) (control : UdpSocketControlData)
      (payload nonce padding : List ℕ) (time random : ℕ)
      → IsWire addr
      → length nonce ≡ get_nonce_len u method
      → length padding ≡ get_aead_2022_padding_size payload random
      → encrypt_server_payload_aead_2022 u b method key addr control payload nonce time random
          padding
        ≡ encrypt_message u b method key key
            (nonce
              ++ (ids control.server_session_id control.packet_id
                  ++ server_body time control.client_session_id padding addr payload))
            control.server_session_id
            0
  unfolding encrypt_server_payload_aead_2022
  encrypt_server_payload_lem method key addr control payload nonce padding time random w len pad =
      let sp = ids control.server_session_id control.packet_id in
      let fields = server_fields time control.client_session_id padding in
      let all : take (get_nonce_len u method) nonce ≡ nonce =
        ap (λ n. take n nonce) (sym len) ∙ take-length nonce in
      rw (
        all,
        ← pad,
        write_to_buf-encoding {E = ProtocolError} addr (nonce ++ (sp ++ (fields ++ padding))) w,
        laid_out time control.client_session_id nonce sp padding addr payload,
      )

  decrypt_server_payload_lem :
      (method : Method) (key : List ℕ) (addr : Address) (s p c now time : ℕ)
      (payload nonce padding enc : List ℕ)
      (o : Opens u b method key none none enc
        (nonce ++ (ids s p ++ server_body time c padding addr payload)))
      → length nonce ≡ get_nonce_len u method
      → IsWire addr
      → All IsByte (encoding addr ++ payload)
      → length padding < 65536
      → s < 2 ^ 64
      → p < 2 ^ 64
      → c < 2 ^ 64
      → time < 2 ^ 64
      → abs_diff now time ≤ 30
      → (front : List ℕ) × (decrypt_server_payload_aead_2022 u b method key enc now
          ≡ ok (
            length payload,
            addr,
            record { client_session_id = c; server_session_id = s; packet_id = p; user = none },
            copy_within o.packet
                (length nonce + (length front + length (encoding addr)))
                (length payload),
          ))
        × (ids s p ++ server_body time c padding addr payload ≡ front ++ (encoding addr ++ payload))
  unfolding decrypt_server_payload_aead_2022
  decrypt_server_payload_lem method key addr s p c now time payload nonce padding enc o len w bytes
        short small_s small_p small_c small timely =
      let body = server_body time c padding addr payload in
      let front = ids s p ++ (server_fields time c padding ++ padding) in
      let whole : ids s p ++ body ≡ front ++ (encoding addr ++ payload) =
        simp (append_assoc, put_uint-append) in
      let enough : ltb (length enc) (get_nonce_len u method + u.tag_len + 8 + 8 + 1 + 8 + 2)
          ≡ false =
        le→ltb _ _ (
          omega (
            arith,
            o.length_is,
            length-append nonce (ids s p ++ body),
            length-append (ids s p) body,
            length-ids s p,
            length-put_uint 8 time (put_uint 8 c (padded padding addr payload)),
            length-put_uint 8 c (padded padding addr payload),
          )) in
      let cut : drop (length nonce) (take (length enc - u.tag_len) o.packet) ≡ ids s p ++ body =
        ap (drop (length nonce)) o.packet_is ∙ drop-length_append nonce (ids s p ++ body) in
      let first : get_uint {E = ProtocolError} 8 0 (ids s p ++ body) ≡ ok (s, put_uint 8 p body) =
        ap (get_uint 8 0) (ids-append s p body)
        ∙ get_uint-put_uint 8 s (put_uint 8 p body) small_s in
      let rest = put_uint 8 c (padded padding addr payload) in
      (
        front,
        rw
            (
              enough,
              o.opens,
              ← len,
              cut,
              first,
              get_uint-put_uint {E = ProtocolError} 8 p body small_p,
              check_header_lem server_socket_type now time rest small timely,
              get_uint-put_uint {E = ProtocolError} 8 c (padded padding addr payload) small_c,
            )
            (take_payload-padded (length nonce) o.packet (ids s p ++ body) front padding addr
              payload
              record { client_session_id = c; server_session_id = s; packet_id = p; user = none }
              whole short w bytes),
        whole,
      )

  -- Under one key of the size that the method asks for, if the ids and the times fit into 64 bits, the
  -- clocks are at most 30 seconds apart, the padding has the size that is chosen for the payload, the nonce has the length
  -- that the method prepends, and the address and the payload are bytes on the wire, a client decrypts
  -- what a server encrypts: it has the address, the ids of both ends, no user, the length of the payload,
  -- and a buffer that starts with the payload.
  pub decrypt-encrypt_server_payload :
      (method : Method) (key : List ℕ) (addr : Address) (control : UdpSocketControlData)
      (payload nonce padding : List ℕ) (now time random : ℕ)
      → KeyFits method key
      → length nonce ≡ get_nonce_len u method
      → IsWire addr
      → All IsByte (encoding addr ++ payload)
      → length padding ≡ get_aead_2022_padding_size payload random
      → control.server_session_id < 2 ^ 64
      → control.packet_id < 2 ^ 64
      → control.client_session_id < 2 ^ 64
      → time < 2 ^ 64
      → abs_diff now time ≤ 30
      → (packet buffer : List ℕ) × (encrypt_server_payload_aead_2022 u b method key addr control
            payload nonce time random padding
          ≡ ok packet)
        × (decrypt_server_payload_aead_2022 u b method key packet now
            ≡ ok (
              length payload,
              addr,
              record {
                client_session_id = control.client_session_id;
                server_session_id = control.server_session_id;
                packet_id = control.packet_id;
                user = none;
              },
              buffer,
            ))
        × (take (length payload) buffer ≡ payload)
  decrypt-encrypt_server_payload method key addr control payload nonce padding now time random fits
        len w bytes pad small_s small_p small_c small timely =
      let s = control.server_session_id in
      let p = control.packet_id in
      let i = no_identity u b method key s p none (no_users method) fits in
      let body = server_body time control.client_session_id padding addr payload in
      let (enc, encrypts, o) =
        encrypt_message-IsOpened u b method key [] key none none s p i nonce body len small_s in
      let (front, decrypts, whole) =
        decrypt_server_payload_lem method key addr s p control.client_session_id now time payload
          nonce padding enc o len w bytes (short payload padding random pad) small_s small_p small_c
          small timely in
      let plain = nonce ++ (front ++ (encoding addr ++ payload)) in
      let same = ap (λ t. nonce ++ t) whole in
      let size : length enc - u.tag_len ≡ length plain =
        omega (arith, o.length_is, ap length same) in
      (
        enc,
        _,
        encrypt_server_payload_lem method key addr control payload nonce padding time random w len
              pad
            ∙ encrypts,
        decrypts,
        moved o.packet nonce front (encoding addr) payload _ (o.packet_is ∙ same) size,
      )

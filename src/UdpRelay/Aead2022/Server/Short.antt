-- ===== src/UdpRelay/Aead2022/Server/Short.antt =====
-- Packets of a server that pass the check of the length and are too short for what is read.
use mobile_android_obfuscati.Common.{
  ℕ, ◌+◌, ◌-◌, ◌*◌, ◌^◌, ◌≤◌, ◌<◌, ◌≡◌, refl, ap, ◌∙◌, arith, ltb, le→ltb, false, List, [], ◌∷◌,
  ◌++◌, length, take, drop, length-append, drop-length_append, none,
}
use mobile_android_obfuscati.Common.{ok, ◌>>=◌}
use mobile_android_obfuscati.Common.Bytes.{put_uint, length-put_uint, get_uint, get_uint-put_uint}
use mobile_android_obfuscati.Aead2022.Header.{abs_diff}
use mobile_android_obfuscati.Aead2022.Identity.{Method, Primitives}
use mobile_android_obfuscati.UdpRelay.Aead2022.{
  ProtocolError, UdpSocketControlData, server_socket_type, get_nonce_len, encrypt_message,
}
use mobile_android_obfuscati.UdpRelay.Aead2022.Cipher.{UdpCipher}
use mobile_android_obfuscati.UdpRelay.Aead2022.Server.{decrypt_server_payload_aead_2022}
use mobile_android_obfuscati.UdpRelay.Aead2022.Message.{ids, length-ids, ids-append, KeyFits}
use mobile_android_obfuscati.UdpRelay.Aead2022.Message.Keys.{no_identity}
use mobile_android_obfuscati.UdpRelay.Aead2022.Message.Opens.{Opens, encrypt_message-IsOpened}
use mobile_android_obfuscati.UdpRelay.Aead2022.Payload.{check_header_lem}
use mobile_android_obfuscati.UdpRelay.Aead2022.Message.Plain.{get_uint_left}
use mobile_android_obfuscati.UdpRelay.Aead2022.Server.RoundTrip.{no_users}
use mobile_android_obfuscati.Common.{zero, suc, panic, dec_lt}
use mobile_android_obfuscati.UdpRelay.Aead2022.{take_payload}

get_uint_short :
    (n acc : ℕ) (r : List ℕ) → length r < n → get_uint {E = ProtocolError} n acc r ≡ panic
unfolding get_uint
get_uint_short zero acc r h = absurd (omega arith)
get_uint_short (suc n) acc [] h = refl
get_uint_short (suc n) acc (x ∷ r) h = get_uint_short n (acc * 256 + x) r (omega arith)

-- The id of the client and the size of the padding, off fewer than their 10 bytes.
ids_cut :
    (nonce_len s p : ℕ) (packet message r : List ℕ)
    → length r < 10
    → (do
      (c, r4) ← get_uint 8 0 r
      let control : UdpSocketControlData = record {
        client_session_id = c;
        server_session_id = s;
        packet_id = p;
        user = none;
      }
      take_payload nonce_len packet message control r4)
      ≡ panic
unfolding take_payload
ids_cut nonce_len s p packet message r cut = elim (dec_lt (length r) 8) [
  | yes shorter ↦ rw (get_uint_short 8 0 r shorter) refl
  | no longer ↦
      let (c, rest, got, len) = get_uint_left 8 0 r (omega arith) in
      rw (got, get_uint_short 2 0 rest (omega arith)) refl
]

module _ (u : UdpCipher) (b : Primitives) where
  decrypt_server_payload-cut :
      (method : Method) (key : List ℕ) (s p now time : ℕ) (nonce r enc : List ℕ)
      → Opens u b method key none none enc
          (nonce ++ (ids s p ++ server_socket_type ∷ put_uint 8 time r))
      → length nonce ≡ get_nonce_len u method
      → s < 2 ^ 64
      → p < 2 ^ 64
      → time < 2 ^ 64
      → abs_diff now time ≤ 30
      → 2 ≤ length r
      → length r < 10
      → decrypt_server_payload_aead_2022 u b method key enc now ≡ panic
  unfolding decrypt_server_payload_aead_2022
  decrypt_server_payload-cut method key s p now time nonce r enc o len small_s small_p small timely
        some_bytes cut_off =
      let body = server_socket_type ∷ put_uint 8 time r in
      let enough : ltb (length enc) (get_nonce_len u method + u.tag_len + 8 + 8 + 1 + 8 + 2)
          ≡ false =
        le→ltb _ _ (
          omega (
            arith,
            o.length_is,
            length-append nonce (ids s p ++ body),
            length-append (ids s p) body,
            length-ids s p,
            length-put_uint 8 time r,
          )) in
      let cut : drop (length nonce) (take (length enc - u.tag_len) o.packet) ≡ ids s p ++ body =
        ap (drop (length nonce)) o.packet_is ∙ drop-length_append nonce (ids s p ++ body) in
      let first : get_uint {E = ProtocolError} 8 0 (ids s p ++ body) ≡ ok (s, put_uint 8 p body) =
        ap (get_uint 8 0) (ids-append s p body)
        ∙ get_uint-put_uint 8 s (put_uint 8 p body) small_s in
      rw
        (
          enough,
          o.opens,
          ← len,
          cut,
          first,
          get_uint-put_uint {E = ProtocolError} 8 p body small_p,
          check_header_lem server_socket_type now time r small timely,
        )
        (ids_cut (length nonce) s p o.packet (ids s p ++ body) r cut_off)

  -- A packet under the key of a client, of the type of a server and at most 30 seconds apart in time,
  -- which ends with at least 2 and fewer than 10 bytes for the id of the client and the size of the
  -- padding, passes the check of its length and makes the decryption panic.
  pub decrypt_server_payload-panics :
      (method : Method) (key : List ℕ) (s p now time : ℕ) (nonce r : List ℕ)
      → KeyFits method key
      → length nonce ≡ get_nonce_len u method
      → s < 2 ^ 64
      → p < 2 ^ 64
      → time < 2 ^ 64
      → abs_diff now time ≤ 30
      → 2 ≤ length r
      → length r < 10
      → (packet : List ℕ) × (encrypt_message u b method key key
            (nonce ++ (ids s p ++ server_socket_type ∷ put_uint 8 time r))
            s
            0
          ≡ ok packet)
        × (decrypt_server_payload_aead_2022 u b method key packet now ≡ panic)
  decrypt_server_payload-panics method key s p now time nonce r fits len small_s small_p small
        timely some_bytes cut_off =
      let i = no_identity u b method key s p none (no_users method) fits in
      let (enc, encrypts, o) =
        encrypt_message-IsOpened u b method key [] key none none s p i nonce
          (server_socket_type ∷ put_uint 8 time r) len small_s in
      (
        enc,
        encrypts,
        decrypt_server_payload-cut method key s p now time nonce r enc o len small_s small_p small
            timely some_bytes cut_off,
      )

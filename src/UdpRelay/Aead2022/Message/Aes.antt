-- ===== src/UdpRelay/Aead2022/Message/Aes.antt =====
-- A packet under AES.
use mathlib.Core.List.{append_assoc}
use mobile_android_obfuscati.Common.{
  ℕ, ◌+◌, ◌^◌, ◌<◌, ◌≡◌, sym, ap, ◌∙◌, arith, true, List, [], ◌++◌, length, take, drop,
  length-append, Option, take-length_append, drop-length_append,
}
use mobile_android_obfuscati.Common.{ok}
use mobile_android_obfuscati.Common.Bytes.{put_uint, get_uint, get_uint-put_uint}
use mobile_android_obfuscati.Aead2022.Identity.{
  Method, method_support_eih, Primitives, ServerUser, ServerUserManager,
}
use mobile_android_obfuscati.UdpRelay.Aead2022.{ProtocolError, encrypt_aes, decrypt_aes}
use mobile_android_obfuscati.UdpRelay.Aead2022.Cipher.{UdpCipher}
use mobile_android_obfuscati.UdpRelay.Aead2022.Message.{
  ids, length-ids, KeyFits, aes_block-KeyFits, Identities,
}
use mobile_android_obfuscati.UdpRelay.Aead2022.Message.Plain.{take_behind}

module _ (u : UdpCipher) (b : Primitives) where
  pub encrypt_aes_lem :
      (method : Method) (ipsk key sp eih body : List ℕ) (session_id : ℕ)
      → method_support_eih method ≡ true
      → KeyFits method ipsk
      → length sp ≡ 16
      → encrypt_aes u b method ipsk key (sp ++ (eih ++ body)) session_id (length eih)
        ≡ ok (
            b.encrypt_block method ipsk sp
            ++ (eih ++ u.encrypt_packet (u.new method key session_id) (drop 4 sp) body))
  unfolding encrypt_aes
  encrypt_aes_lem method ipsk key sp eih body session_id aes fits len = rw (
    ← len,
    take-length_append sp (eih ++ body),
    drop-length_append sp (eih ++ body),
    take-length_append eih body,
    drop-length_append eih body,
    aes_block-KeyFits b.encrypt_block method ipsk sp aes fits,
  )

  pub aes-Opens :
      (method : Method) (key : List ℕ) (identity_keys : List (List ℕ)) (reader_key : List ℕ)
      (users : Option ServerUserManager) (user : Option ServerUser) (session_id packet_id : ℕ)
      (i : Identities u b method key identity_keys reader_key users user (ids session_id packet_id))
      (body : List ℕ)
      → method_support_eih method ≡ true
      → session_id < 2 ^ 64
      → let sp = ids session_id packet_id in
        (packet : List ℕ) × (decrypt_aes u b method reader_key
            (b.encrypt_block method reader_key sp
              ++ (i.eih ++ u.encrypt_packet (u.new method key session_id) (drop 4 sp) body))
            users
          ≡ ok (user, packet))
        × (take (16 + length i.hash + length body) packet ≡ sp ++ (i.hash ++ body))
  unfolding decrypt_aes
  aes-Opens method key identity_keys reader_key users user session_id packet_id i body aes small =
      let sp = ids session_id packet_id in
      let cipher = u.new method key session_id in
      let m = u.encrypt_packet cipher (drop 4 sp) body in
      let block = b.encrypt_block method reader_key sp in
      let size : length block ≡ 16 =
        b.length-encrypt_block method reader_key sp (length-ids session_id packet_id) in
      let (valid, plain) = u.decrypt-encrypt_packet cipher (drop 4 sp) body in
      let d = (u.decrypt_packet cipher (drop 4 sp) m).1 in
      let front : take 16 (block ++ (i.eih ++ m)) ≡ block =
        ap (λ n. take n (block ++ (i.eih ++ m))) (sym size)
        ∙ take-length_append block (i.eih ++ m) in
      let back : drop 16 (block ++ (i.eih ++ m)) ≡ i.eih ++ m =
        ap (λ n. drop n (block ++ (i.eih ++ m))) (sym size)
        ∙ drop-length_append block (i.eih ++ m) in
      let header = b.decrypt-encrypt_block method reader_key sp (length-ids session_id packet_id) in
      let session : get_uint {E = ProtocolError} 8 0 sp ≡ ok (session_id, put_uint 8 packet_id []) =
        get_uint-put_uint 8 session_id (put_uint 8 packet_id []) small in
      (
        (sp ++ i.hash) ++ d,
        rw (
          front,
          back,
          aes_block-KeyFits b.decrypt_block method reader_key block aes i.key_fits,
          header,
          session,
          i.identifies m aes,
          valid,
        ),
        take_behind (sp ++ i.hash) d _ (length body)
              (omega (arith, length-append sp i.hash, length-ids session_id packet_id))
            ∙ ap (λ t. (sp ++ i.hash) ++ t) plain
            ∙ append_assoc sp i.hash body,
      )

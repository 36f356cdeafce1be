-- ===== src/UdpRelay/Aead/RoundTrip.antt =====
-- An encrypted packet is decrypted.
use mathlib.Core.List.{append_assoc}
use mobile_android_obfuscati.Common.{
  ℕ, ◌+◌, ◌-◌, ◌≡◌, sym, ap, ◌∙◌, arith, ltb, true, false, List, ◌++◌, length, take, drop,
  length-append, All, take-length_append, drop-length_append, drop-drop, take-drop,
}
use mobile_android_obfuscati.Common.{ok}
use mobile_android_obfuscati.Common.Bytes.{IsByte}
use mobile_android_obfuscati.Socks5.Address.{Address}
use mobile_android_obfuscati.Socks5.Address.RoundTrip.{
  IsWire, encoding, write_to_buf-encoding, read_from-encoding,
}
use mobile_android_obfuscati.Socks5.Address.Cursor.{read_cursor_iff}
use mobile_android_obfuscati.Aead.Cipher.{Aead}
use mobile_android_obfuscati.UdpRelay.Aead.{
  ProtocolError, parse_packet, copy_within, encrypt_payload_aead, decrypt_payload_aead,
}

parse_packet-encoding :
    (addr : Address) (payload : List ℕ)
    → IsWire addr
    → All IsByte (encoding addr ++ payload)
    → parse_packet (encoding addr ++ payload) ≡ ok (length (encoding addr), addr)
unfolding parse_packet
parse_packet-encoding addr payload w bytes =
    let reads =
      (read_cursor_iff (addr, payload) (encoding addr ++ payload) bytes).1
        (read_from-encoding addr payload w) in
    let pos : length (encoding addr ++ payload) - length payload ≡ length (encoding addr) =
      omega (arith, length-append (encoding addr) payload) in
    rw (reads, pos)

-- The data is moved to the start of the buffer.
pub copied :
    (n : ℕ) (salt plain front payload : List ℕ)
    → length salt ≡ n
    → take (length (front ++ payload)) plain ≡ front ++ payload
    → take (length payload) (copy_within (salt ++ plain) (n + length front) (length payload))
      ≡ payload
copied n salt plain front payload len starts =
    let there : drop (n + length front) (salt ++ plain) ≡ drop (length front) plain =
      sym (drop-drop (length front) n (salt ++ plain))
      ∙ ap (drop (length front)) (rw (← len) (drop-length_append salt plain)) in
    let moved : take (length payload) (drop (length front) plain) ≡ payload =
      take-drop (length payload) (length front) plain
      ∙ ap (λ k. drop (length front) (take k plain)) (sym (length-append front payload))
      ∙ ap (drop (length front)) starts
      ∙ drop-length_append front payload in
    rw (there, moved) (take-length_append payload _)

module _ (e : Aead) where
  encrypt_payload_aead-encoding :
      (key : List ℕ) (addr : Address) (payload salt : List ℕ)
      → IsWire addr
      → length salt ≡ e.salt_len
      → encrypt_payload_aead e key addr payload salt
        ≡ ok (salt ++ (e.encrypt_packet (e.new key salt) (encoding addr ++ payload)).0)
  unfolding encrypt_payload_aead
  encrypt_payload_aead-encoding key addr payload salt w len = rw (
    write_to_buf-encoding {E = ProtocolError} addr salt w,
    append_assoc salt (encoding addr) payload,
    ← len,
    take-length_append,
    drop-length_append,
  )

  -- A packet that is long enough and has a valid tag is parsed behind the salt.
  decrypt_payload_aead-valid :
      (key salt m text : List ℕ) (dn : ℕ) (addr : Address)
      → length salt ≡ e.salt_len
      → length m ≡ length text + e.tag_len
      → (e.decrypt_packet (e.new key salt) m).0 ≡ true
      → take (length text) (e.decrypt_packet (e.new key salt) m).1 ≡ text
      → parse_packet text ≡ ok (dn, addr)
      → decrypt_payload_aead e key (salt ++ m)
        ≡ ok (
          length text - dn,
          addr,
          copy_within
              (salt ++ (e.decrypt_packet (e.new key salt) m).1)
              (e.salt_len + dn)
              (length text - dn),
        )
  unfolding decrypt_payload_aead
  decrypt_payload_aead-valid key salt m text dn addr len size valid plain parses =
      let salted : ltb (length salt + length m) (length salt) ≡ false = ground arith in
      let tagged : ltb (length text + e.tag_len) e.tag_len ≡ false = ground arith in
      let cut : length text + e.tag_len - e.tag_len ≡ length text = omega arith in
      rw (
        ← len,
        length-append salt m,
        salted,
        take-length_append salt m,
        drop-length_append salt m,
        size,
        tagged,
        valid,
        cut,
        plain,
        parses,
      )

  -- What `encrypt_payload_aead` makes of an address and a payload of bytes, with a salt of the method's
  -- length, `decrypt_payload_aead` accepts with the same key: it gives the address, the length of the
  -- payload, and a buffer that starts with the payload.
  pub decrypt-encrypt_payload_aead :
      (key : List ℕ) (addr : Address) (payload salt : List ℕ)
      → IsWire addr
      → All IsByte (encoding addr ++ payload)
      → length salt ≡ e.salt_len
      → (packet buffer : List ℕ) × (encrypt_payload_aead e key addr payload salt ≡ ok packet)
        × (decrypt_payload_aead e key packet ≡ ok (length payload, addr, buffer))
        × (take (length payload) buffer ≡ payload)
  decrypt-encrypt_payload_aead key addr payload salt w bytes len =
      let text = encoding addr ++ payload in
      let m = (e.encrypt_packet (e.new key salt) text).0 in
      let (valid, plain, _) = e.decrypt-encrypt (e.new key salt) text in
      let opened =
        decrypt_payload_aead-valid key salt m text (length (encoding addr)) addr len
          (e.length-encrypt_packet (e.new key salt) text) valid plain
          (parse_packet-encoding addr payload w bytes) in
      let size : length text - length (encoding addr) ≡ length payload =
        omega (arith, length-append (encoding addr) payload) in
      (
        salt ++ m,
        copy_within (salt ++ (e.decrypt_packet (e.new key salt) m).1)
            (e.salt_len + length (encoding addr)) (length payload),
        encrypt_payload_aead-encoding key addr payload salt w len,
        opened
            ∙ ap
                (λ n. ok (
                  n,
                  addr,
                  copy_within (salt ++ (e.decrypt_packet (e.new key salt) m).1)
                      (e.salt_len + length (encoding addr)) n,
                ))
                size,
        copied e.salt_len salt (e.decrypt_packet (e.new key salt) m).1 (encoding addr) payload len
            plain,
      )

-- ===== src/UdpRelay/Stream/RoundTrip.antt =====
-- An encrypted packet is decrypted.
use mathlib.Core.List.{append_assoc}
use mobile_android_obfuscati.Common.{
  ℕ, ◌+◌, ◌-◌, ◌≡◌, ap, ◌∙◌, arith, ltb, false, List, ◌++◌, length, take, length-append, All,
  take-length_append, drop-length_append,
}
use mobile_android_obfuscati.Common.{ok}
use mobile_android_obfuscati.Common.Bytes.{IsByte}
use mobile_android_obfuscati.Socks5.Address.{Address}
use mobile_android_obfuscati.Socks5.Address.RoundTrip.{
  IsWire, encoding, write_to_buf-encoding, read_from-encoding,
}
use mobile_android_obfuscati.Socks5.Address.Cursor.{read_cursor_iff}
use mobile_android_obfuscati.Aead.Reader.Steps.{take_all}
use mobile_android_obfuscati.StreamCipher.{StreamCipher}
use mobile_android_obfuscati.UdpRelay.Aead.{copy_within}
use mobile_android_obfuscati.UdpRelay.Aead.RoundTrip.{copied}
use mobile_android_obfuscati.UdpRelay.Stream.{
  ProtocolError, parse_packet, encrypt_payload_stream, decrypt_payload_stream,
}

parse_packet-encoding :
    (addr : Address) (payload : List ℕ)
    → IsWire addr
    → All IsByte (encoding addr ++ payload)
    → parse_packet (encoding addr ++ payload) ≡ ok (length (encoding addr), addr)
unfolding parse_packet
parse_packet-encoding addr payload w bytes =
    let reads =
      (read_cursor_iff (addr, payload) (encoding addr ++ payload) bytes).1
        (read_from-encoding addr payload w) in
    let pos : length (encoding addr ++ payload) - length payload ≡ length (encoding addr) =
      omega (arith, length-append (encoding addr) payload) in
    rw (reads, pos)

module _ (s : StreamCipher) where
  encrypt_payload_stream-encoding :
      (key : List ℕ) (addr : Address) (payload iv : List ℕ)
      → IsWire addr
      → length iv ≡ s.iv_len
      → encrypt_payload_stream s key addr payload iv
        ≡ ok (iv ++ (s.encrypt_packet (s.new key iv) (encoding addr ++ payload)).0)
  unfolding encrypt_payload_stream
  encrypt_payload_stream-encoding key addr payload iv w len = rw (
    write_to_buf-encoding {E = ProtocolError} addr iv w,
    append_assoc iv (encoding addr) payload,
    ← len,
    take-length_append,
    drop-length_append,
  )

  decrypt_payload_stream-valid :
      (key iv text : List ℕ) (dn : ℕ) (addr : Address)
      → length iv ≡ s.iv_len
      → parse_packet text ≡ ok (dn, addr)
      → decrypt_payload_stream s key (iv ++ (s.encrypt_packet (s.new key iv) text).0)
        ≡ ok (length text - dn, addr, copy_within (iv ++ text) (s.iv_len + dn) (length text - dn))
  unfolding decrypt_payload_stream
  decrypt_payload_stream-valid key iv text dn addr len parses =
      let m = (s.encrypt_packet (s.new key iv) text).0 in
      let has_iv : ltb (length iv + length m) (length iv) ≡ false = ground arith in
      let size : length iv + length m - (length iv + dn) ≡ length text - dn =
        omega (arith, s.length-encrypt_packet (s.new key iv) text) in
      rw (
        ← len,
        length-append iv m,
        has_iv,
        take-length_append iv m,
        drop-length_append iv m,
        s.decrypt-encrypt (s.new key iv) text,
        parses,
        size,
      )

  -- What `encrypt_payload_stream` makes of an address and a payload of bytes, with an initialisation
  -- vector of the method's length, `decrypt_payload_stream` gives back with the same key: the address,
  -- the length of the payload, and a buffer that starts with the payload.
  pub decrypt-encrypt_payload_stream :
      (key : List ℕ) (addr : Address) (payload iv : List ℕ)
      → IsWire addr
      → All IsByte (encoding addr ++ payload)
      → length iv ≡ s.iv_len
      → (packet buffer : List ℕ) × (encrypt_payload_stream s key addr payload iv ≡ ok packet)
        × (decrypt_payload_stream s key packet ≡ ok (length payload, addr, buffer))
        × (take (length payload) buffer ≡ payload)
  decrypt-encrypt_payload_stream key addr payload iv w bytes len =
      let text = encoding addr ++ payload in
      let opened =
        decrypt_payload_stream-valid key iv text (length (encoding addr)) addr len
          (parse_packet-encoding addr payload w bytes) in
      let size : length text - length (encoding addr) ≡ length payload =
        omega (arith, length-append (encoding addr) payload) in
      (
        iv ++ (s.encrypt_packet (s.new key iv) text).0,
        copy_within (iv ++ text) (s.iv_len + length (encoding addr)) (length payload),
        encrypt_payload_stream-encoding key addr payload iv w len,
        opened
            ∙ ap (λ n. ok (n, addr, copy_within (iv ++ text) (s.iv_len + length (encoding addr)) n))
                size,
        copied s.iv_len iv text (encoding addr) payload len
            (take_all (length text) text (omega arith)),
      )

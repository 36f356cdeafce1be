-- ===== src/UdpRelay/Aead2022/Payload.antt =====
-- What stands behind the ids and the identity header of a packet: it is read as it was written.
use mathlib.Core.List.{append_assoc, append-nil}
use mobile_android_obfuscati.Common.{
  ℕ, ◌+◌, ◌-◌, ◌%◌, ◌^◌, ◌≤◌, ◌<◌, ◌≡◌, eq→==, refl, sym, ap, ◌∙◌, arith, le→ltb, List, [], ◌∷◌,
  ◌++◌, length, take, length-append, take-length_append, drop-length_append, All,
}
use mobile_android_obfuscati.Common.{ok}
use mobile_android_obfuscati.Common.Bytes.{
  IsByte, be_bytes, put_uint, get_u8, get_uint-put_uint, get_uint-be_bytes,
}
use mobile_android_obfuscati.Socks5.Address.{Address}
use mobile_android_obfuscati.Socks5.Address.RoundTrip.{IsWire, encoding, read_from-encoding}
use mobile_android_obfuscati.Socks5.Address.Cursor.{read_cursor_iff}
use mobile_android_obfuscati.Aead2022.Header.{abs_diff}
use mobile_android_obfuscati.ProxyStream.Protocol.{get_aead_2022_padding_size}
use mobile_android_obfuscati.UdpRelay.Aead.{copy_within}
use mobile_android_obfuscati.UdpRelay.Aead.RoundTrip.{copied}
use mobile_android_obfuscati.UdpRelay.Aead2022.{
  ProtocolError, UdpSocketControlData, server_packet_timestamp_max_diff, advance, check_header,
  take_payload,
}

-- The padding with its length, the address and the payload.
abbrev pub padded : List ℕ → Address → List ℕ → List ℕ
padded padding addr payload =
    be_bytes (length padding % 65536) ++ (padding ++ (encoding addr ++ payload))

pub take-length : (xs : List ℕ) → take (length xs) xs ≡ xs
take-length xs = ap (take (length xs)) (sym (append-nil xs)) ∙ take-length_append xs []

pub check_header_lem :
    (ty now time : ℕ) (r : List ℕ)
    → time < 2 ^ 64
    → abs_diff now time ≤ 30
    → check_header ty now (ty ∷ put_uint 8 time r) ≡ ok r
unfolding check_header get_u8
check_header_lem ty now time r small timely =
    let same = eq→== ty ty refl in
    let timestamp = get_uint-put_uint {E = ProtocolError} 8 time r small in
    rw (same, timestamp, le→ltb server_packet_timestamp_max_diff (abs_diff now time) timely)

pub advance-length : (front back : List ℕ) → advance (length front) (front ++ back) ≡ ok back
unfolding advance
advance-length front back =
    let inside =
      le→ltb (length (front ++ back)) (length front) (omega (arith, length-append front back)) in
    rw (inside, drop-length_append front back)

pub short :
    (payload padding : List ℕ) (random : ℕ)
    → length padding ≡ get_aead_2022_padding_size payload random
    → length padding < 65536
unfolding get_aead_2022_padding_size
short [] padding random h = omega arith
short (x ∷ payload) padding random h = omega arith

-- The payload is what the message ends with.
pub take_payload-padded :
    (nonce_len : ℕ) (packet message front padding : List ℕ) (addr : Address) (payload : List ℕ)
    (control : UdpSocketControlData)
    → message ≡ front ++ (encoding addr ++ payload)
    → length padding < 65536
    → IsWire addr
    → All IsByte (encoding addr ++ payload)
    → take_payload nonce_len packet message control (padded padding addr payload)
      ≡ ok (
        length payload,
        addr,
        control,
        copy_within packet (nonce_len + (length front + length (encoding addr))) (length payload),
      )
unfolding take_payload
take_payload-padded nonce_len packet message front padding addr payload control whole short w
      bytes =
    let reads =
      (read_cursor_iff (addr, payload) (encoding addr ++ payload) bytes).1
        (read_from-encoding addr payload w) in
    let size : length message ≡ length front + (length (encoding addr) + length payload) =
      ap length whole
      ∙ length-append front (encoding addr ++ payload)
      ∙ ap (λ n. length front + n) (length-append (encoding addr) payload) in
    let start : length message - length payload ≡ length front + length (encoding addr) =
      omega arith in
    let left : length message - (length front + length (encoding addr)) ≡ length payload =
      omega arith in
    rw (
      get_uint-be_bytes (length padding) (padding ++ (encoding addr ++ payload)) short,
      drop-length_append padding (encoding addr ++ payload),
      reads,
      start,
      left,
    )

-- The payload is moved to the start of the buffer.
pub moved :
    (packet nonce front addr_bytes payload : List ℕ) (n : ℕ)
    → take n packet ≡ nonce ++ (front ++ (addr_bytes ++ payload))
    → n ≡ length (nonce ++ (front ++ (addr_bytes ++ payload)))
    → take
        (length payload)
        (copy_within packet (length nonce + (length front + length addr_bytes)) (length payload))
      ≡ payload
moved packet nonce front addr_bytes payload n starts size =
    let before = nonce ++ (front ++ addr_bytes) in
    let whole : before ++ payload ≡ nonce ++ (front ++ (addr_bytes ++ payload)) =
      append_assoc nonce (front ++ addr_bytes) payload
      ∙ ap (λ t. nonce ++ t) (append_assoc front addr_bytes payload) in
    let place : 0 + length before ≡ length nonce + (length front + length addr_bytes) =
      omega (arith, length-append nonce (front ++ addr_bytes), length-append front addr_bytes) in
    let same : length (before ++ payload) ≡ n = ap length whole ∙ sym size in
    rw (← place)
      (copied 0 [] packet before payload refl (ap (λ k. take k packet) same ∙ starts ∙ sym whole))

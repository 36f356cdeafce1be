-- ===== src/UdpRelay/Aead/Rejects.antt =====
-- The packets that are rejected.
use mobile_android_obfuscati.Common.{
  ℕ, ◌-◌, ◌≤◌, ◌≡◌, ◌↔◌, arith, ltb, true, false, Bool-cases, ◌⊎◌, inl, inr, dec_lt, List, length,
  take, drop, if◌then◌else◌,
}
use mobile_android_obfuscati.Common.{Result, ok, err, panic, ◌>>=◌}
use mobile_android_obfuscati.Socks5.Address.{Address, read_cursor}
use mobile_android_obfuscati.Socks5.Error.{Error}
use mobile_android_obfuscati.Socks5.Address.Cursor.{IsPortCut, read_cursor-panic_iff}
use mobile_android_obfuscati.Aead.Cipher.{Aead}
use mobile_android_obfuscati.UdpRelay.Aead.{
  ProtocolError, parsed, parse_packet, decrypt_payload_aead,
}

parsed-panic_iff :
    (buf : List ℕ) (r : Result Error (Address × List ℕ)) → (parsed buf r ≡ panic) ↔ (r ≡ panic)
parsed-panic_iff buf (ok (address, rest)) = ground arith
parsed-panic_iff buf (err failure) = ground arith
parsed-panic_iff buf panic = ground arith

parse_packet-panic_iff : (buf : List ℕ) → (parse_packet buf ≡ panic) ↔ IsPortCut buf
unfolding parse_packet
parse_packet-panic_iff buf =
    let (to, from) = parsed-panic_iff buf (read_cursor buf) in
    let (to', from') = read_cursor-panic_iff buf in (λ h. to' (to h), λ h. from (from' h))

>>=-panic_iff :
    {E A B : Type 0} (r : Result E A) (f : A → B)
    → (◌>>=◌ {B = B} r (λ a. ok (f a)) ≡ panic) ↔ (r ≡ panic)
>>=-panic_iff (ok a) f = ground arith
>>=-panic_iff (err k) f = ground arith
>>=-panic_iff panic f = ground arith

module _ (e : Aead) where
  -- The plain text that a packet of the right length decrypts to, without the tag.
  abbrev opened : List ℕ → List ℕ → List ℕ
  opened key packet =
      let ciphertext = drop e.salt_len packet in
      take (length ciphertext - e.tag_len)
        (e.decrypt_packet (e.new key (take e.salt_len packet)) ciphertext).1

  abbrev pub IsAuthentic : List ℕ → List ℕ → Type 0
  IsAuthentic key packet =
      (e.salt_len ≤ length packet)
      × (e.tag_len ≤ length (drop e.salt_len packet))
      × ((e.decrypt_packet (e.new key (take e.salt_len packet)) (drop e.salt_len packet)).0 ≡ true)

  decrypt_payload_aead-authentic :
      (key packet : List ℕ)
      → IsAuthentic key packet
      → (decrypt_payload_aead e key packet ≡ panic) ↔ (parse_packet (opened key packet) ≡ panic)
  unfolding decrypt_payload_aead
  decrypt_payload_aead-authentic key packet (salted, tagged, valid) =
      let a : ltb (length packet) e.salt_len ≡ false = ground arith in
      let b : ltb (length (drop e.salt_len packet)) e.tag_len ≡ false = ground arith in
      rw (a, b, valid) (>>=-panic_iff (parse_packet (opened key packet)) _)

  -- What a packet that is not authentic comes to.
  abbrev refusal : List ℕ → ProtocolError
  refusal packet =
      if ltb (length packet) e.salt_len
      then ProtocolError.packet_too_short_for_salt e.salt_len (length packet)
      else if ltb (length (drop e.salt_len packet)) e.tag_len
      then ProtocolError.packet_too_short_for_tag e.tag_len (length (drop e.salt_len packet))
      else ProtocolError.decrypt_payload_error

  -- A packet is authentic or is refused: by its length, or since its tag is wrong. A refused packet is
  -- not parsed.
  pub decrypt_payload_aead_cases :
      (key packet : List ℕ)
      → IsAuthentic key packet ⊎ (decrypt_payload_aead e key packet ≡ err (refusal packet))
  decrypt_payload_aead_cases key packet = elim (dec_lt (length packet) e.salt_len) [
    | yes short ↦ inr (unfold decrypt_payload_aead in ground arith)
    | no salted ↦ elim (dec_lt (length (drop e.salt_len packet)) e.tag_len) [
      | yes short ↦ inr (unfold decrypt_payload_aead in ground arith)
      | no tagged ↦
          elim (Bool-cases
            (e.decrypt_packet (e.new key (take e.salt_len packet)) (drop e.salt_len packet)).0) [
              | inl valid ↦ inl (omega arith, omega arith, valid)
              | inr broken ↦
                  let a : ltb (length packet) e.salt_len ≡ false = ground arith in
                  let b : ltb (length (drop e.salt_len packet)) e.tag_len ≡ false = ground arith in
                  inr (unfold decrypt_payload_aead in rw (a, b, broken))
            ]
    ]
  ]

  -- A packet makes the decryption panic exactly if its tag is valid and what it decrypts to is a domain
  -- name of which the port is cut off.
  pub decrypt_payload_aead-panic_iff :
      (key packet : List ℕ)
      → (decrypt_payload_aead e key packet ≡ panic)
        ↔ (IsAuthentic key packet × IsPortCut (opened key packet))
  decrypt_payload_aead-panic_iff key packet = (
    λ h. elim (decrypt_payload_aead_cases key packet) [
      | inl authentic ↦ (
        authentic,
        (parse_packet-panic_iff (opened key packet)).0
            ((decrypt_payload_aead-authentic key packet authentic).0 h),
      )
      | inr refused ↦ absurd (cc)
    ],
    λ both.
        (decrypt_payload_aead-authentic key packet both.0).1
          ((parse_packet-panic_iff (opened key packet)).1 both.1),
  )

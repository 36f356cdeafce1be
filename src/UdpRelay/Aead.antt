-- ===== src/UdpRelay/Aead.antt =====
-- crates/shadowsocks/src/relay/udprelay/aead.rs: one encrypted packet.
pub mod RoundTrip
pub mod Rejects
use mobile_android_obfuscati.Common.{
  ℕ, ◌+◌, ◌-◌, ltb, not, Bool, true, false, List, [], ◌∷◌, ◌++◌, length, take, drop, if◌then◌else◌,
}
use mobile_android_obfuscati.Common.{Result, ok, err, panic, ◌>>=◌}
use mobile_android_obfuscati.Socks5.Error.{Error}
use mobile_android_obfuscati.Socks5.Address.{Address, read_cursor, write_to_buf}
use mobile_android_obfuscati.Aead.Cipher.{Aead}

pub data ProtocolError : Type 0 where
  packet_too_short_for_salt packet_too_short_for_tag : ℕ → ℕ → ProtocolError
  invalid_address : Error → ProtocolError
  decrypt_payload_error : ProtocolError

-- The position of the cursor behind the address, and the address.
abbrev parsed : List ℕ → Result Error (Address × List ℕ) → Result ProtocolError (ℕ × Address)
parsed buf (ok (address, rest)) = ok (length buf - length rest, address)
parsed buf (err failure) = err (ProtocolError.invalid_address failure)
parsed buf panic = panic

unfoldable pub parse_packet : List ℕ → Result ProtocolError (ℕ × Address)
parse_packet buf = parsed buf (read_cursor buf)

-- `payload.copy_within(from..from + n, 0)`
abbrev pub copy_within : List ℕ → ℕ → ℕ → List ℕ
copy_within buf from n = take n (drop from buf) ++ drop n buf

module _ (e : Aead) where
  -- `dst`, where `generate_nonce` has put the salt. An address that cannot be written panics.
  unfoldable pub encrypt_payload_aead :
      List ℕ → Address → List ℕ → List ℕ → Result ProtocolError (List ℕ)
  encrypt_payload_aead key addr payload salt = do
    let cipher = e.new key salt
    dst ← write_to_buf addr salt
    let packet = dst ++ payload
    ok (take e.salt_len packet ++ (e.encrypt_packet cipher (drop e.salt_len packet)).0)

  -- The length of the data, the address, and the buffer that starts with the data.
  unfoldable pub decrypt_payload_aead :
      List ℕ → List ℕ → Result ProtocolError (ℕ × Address × List ℕ)
  decrypt_payload_aead key payload =
      let plen = length payload in
      if ltb plen e.salt_len
      then err (ProtocolError.packet_too_short_for_salt e.salt_len plen)
      else (let salt = take e.salt_len payload in
          let ciphertext = drop e.salt_len payload in
          let cipher = e.new key salt in
          if ltb (length ciphertext) e.tag_len
          then err (ProtocolError.packet_too_short_for_tag e.tag_len (length ciphertext))
          else (let (valid, plain, _) = e.decrypt_packet cipher ciphertext in
              if not valid then err ProtocolError.decrypt_payload_error else do
                let data_len = length ciphertext - e.tag_len
                (dn, addr) ← parse_packet (take data_len plain)
                let data_length = data_len - dn
                ok (data_length, addr, copy_within (salt ++ plain) (e.salt_len + dn) data_length)))

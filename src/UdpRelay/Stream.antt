-- ===== src/UdpRelay/Stream.antt =====
-- crates/shadowsocks/src/relay/udprelay/stream.rs: one packet under a stream cipher.
pub mod RoundTrip
use mobile_android_obfuscati.Common.{
  ℕ, ◌+◌, ◌-◌, ltb, not, Bool, true, false, List, ◌++◌, length, take, drop, if◌then◌else◌,
}
use mobile_android_obfuscati.Common.{Result, ok, err, panic, ◌>>=◌}
use mobile_android_obfuscati.Socks5.Error.{Error}
use mobile_android_obfuscati.Socks5.Address.{Address, read_cursor, write_to_buf}
use mobile_android_obfuscati.StreamCipher.{StreamCipher}
use mobile_android_obfuscati.UdpRelay.Aead.{copy_within}

pub data ProtocolError : Type 0 where
  packet_too_short : ℕ → ℕ → ProtocolError
  invalid_address : Error → ProtocolError

-- The position of the cursor behind the address, and the address.
abbrev pub parsed : List ℕ → Result Error (Address × List ℕ) → Result ProtocolError (ℕ × Address)
parsed buf (ok (address, rest)) = ok (length buf - length rest, address)
parsed buf (err failure) = err (ProtocolError.invalid_address failure)
parsed buf panic = panic

unfoldable pub parse_packet : List ℕ → Result ProtocolError (ℕ × Address)
parse_packet buf = parsed buf (read_cursor buf)

module _ (s : StreamCipher) where
  -- `dst`, where `generate_nonce` has put the initialisation vector.
  unfoldable pub encrypt_payload_stream :
      List ℕ → Address → List ℕ → List ℕ → Result ProtocolError (List ℕ)
  encrypt_payload_stream key addr payload iv = do
    let cipher = s.new key iv
    dst ← write_to_buf addr iv
    let packet = dst ++ payload
    ok (take s.iv_len packet ++ (s.encrypt_packet cipher (drop s.iv_len packet)).0)

  -- The length of the data, the address, and the buffer that starts with the data. A decryption that
  -- fails is an assertion that fails.
  unfoldable pub decrypt_payload_stream :
      List ℕ → List ℕ → Result ProtocolError (ℕ × Address × List ℕ)
  decrypt_payload_stream key payload =
      let plen = length payload in
      if ltb plen s.iv_len
      then err (ProtocolError.packet_too_short s.iv_len plen)
      else (let iv = take s.iv_len payload in
          let cipher = s.new key iv in
          let (valid, plain, _) = s.decrypt_packet cipher (drop s.iv_len payload) in
          if not valid then panic else do
            (dn, addr) ← parse_packet plain
            let data_length = plen - (s.iv_len + dn)
            ok (data_length, addr, copy_within (iv ++ plain) (s.iv_len + dn) data_length))

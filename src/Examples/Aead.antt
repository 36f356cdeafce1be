-- ===== src/Examples/Aead.antt =====
-- Theorem instances for crates/shadowsocks/src/relay/tcprelay/aead.rs and udprelay/aead.rs, with a
-- cipher that counts packets and appends the count as the tag.
pub mod Toy
use mobile_android_obfuscati.Common.{
  ℕ, ◌+◌, ◌<◌, ◌≤◌, ◌≡◌, ◌↔◌, refl, sym, arith, All, Bool, true, false, List, [], ◌∷◌, ◌++◌, length,
  take, drop, if◌then◌else◌, Option, some, Result, ok, panic, IoErrorKind,
}
use mobile_android_obfuscati.Common.Strings.{bytes}
use mobile_android_obfuscati.Aead.Async.{Poll}
use mobile_android_obfuscati.Aead.Transport.{
  ReadEvent, WriteEvent, incoming, AreAlive, WritesAreAlive,
}
use mobile_android_obfuscati.Aead.Wire.{wire, concat}
use mobile_android_obfuscati.Aead.Reader
use mobile_android_obfuscati.Aead.Reader.{Answer, poll_read_decrypted}
use mobile_android_obfuscati.Aead.Reader.Expects.{AreShort}
use mobile_android_obfuscati.Aead.Reader.Ends.{poll_read_decrypted_total}
use mobile_android_obfuscati.Aead.Reader.Receive.{receive, arriving, receive-prefix}
use mobile_android_obfuscati.Aead.Writer
use mobile_android_obfuscati.Aead.Writer.{
  drain, assemble, write_out, truncate, poll_write_encrypted,
}
use mobile_android_obfuscati.Aead.Writer.Sends.{unsent}
use mobile_android_obfuscati.Aead.Writer.Send.{send, starting, send_lem, send_all}
use mobile_android_obfuscati.Aead.EndToEnd.{receive-send}
use mobile_android_obfuscati.Net.{SocketAddr}
use mobile_android_obfuscati.Socks5.Address.{Address}
use mobile_android_obfuscati.Socks5.Address.RoundTrip.{IsWire}
use mobile_android_obfuscati.Socks5.Address.Cursor.{IsPortCut}
use mobile_android_obfuscati.UdpRelay.Aead.{encrypt_payload_aead, decrypt_payload_aead}
use mobile_android_obfuscati.UdpRelay.Aead.RoundTrip.{decrypt-encrypt_payload_aead}
use mobile_android_obfuscati.UdpRelay.Aead.Rejects.{IsAuthentic, decrypt_payload_aead-panic_iff}
use mobile_android_obfuscati.Examples.Aead.Toy.{toy, accepting}

abbrev key : List ℕ
key = 7 ∷ []

abbrev salt : List ℕ
salt = 1 ∷ 2 ∷ []

abbrev text : List ℕ
text = bytes "hello"

-- The stream takes one byte, makes the writer wait, and takes three more.
abbrev slow : List WriteEvent
slow = WriteEvent.accepts 1 ∷ WriteEvent.pending ∷ WriteEvent.accepts 3 ∷ []

abbrev sent_bytes : List ℕ
sent_bytes = (send toy 6 text (starting toy key salt slow)).1.sent

sent_bytes_lem : sent_bytes ≡ (1 ∷ 2 ∷ 0 ∷ 5 ∷ 7 ∷ 104 ∷ 101 ∷ 108 ∷ 108 ∷ 111 ∷ 8 ∷ [])
unfolding poll_write_encrypted truncate assemble write_out drain Writer.new
sent_bytes_lem = refl

-- The same bytes arrive in three parts.
abbrev arriving_bytes : List ReadEvent
arriving_bytes =
    ReadEvent.arrived (1 ∷ 2 ∷ 0 ∷ [])
    ∷ ReadEvent.pending
    ∷ ReadEvent.arrived (5 ∷ 7 ∷ 104 ∷ 101 ∷ 108 ∷ [])
    ∷ ReadEvent.arrived (108 ∷ 111 ∷ 8 ∷ [])
    ∷ []

abbrev rooms : List ℕ
rooms = 2 ∷ 2 ∷ 2 ∷ 2 ∷ 2 ∷ 2 ∷ []

abbrev slow-AreAlive : WritesAreAlive slow
slow-AreAlive = (omega arith, (tt, (omega arith, tt)))

abbrev arriving_bytes-AreAlive : AreAlive arriving_bytes
arriving_bytes-AreAlive = (omega arith, (tt, (omega arith, (omega arith, tt))))

abbrev all_rooms : All (λ room. 0 < room) rooms
all_rooms =
    (omega arith, (omega arith, (omega arith, (omega arith, (omega arith, (omega arith, tt))))))

abbrev pub run : List ℕ
run = receive toy accepting rooms (arriving {e = toy} {c = accepting} key tt arriving_bytes)

receive-send_example : run ≡ text
receive-send_example =
    receive-send toy accepting 6 key salt text slow tt arriving_bytes rooms refl (omega arith)
      slow-AreAlive (omega arith) arriving_bytes-AreAlive (sym sent_bytes_lem) refl all_rooms
      (omega arith)

receive-prefix_example : (rest : List ℕ) × (run ++ rest ≡ text)
receive-prefix_example =
    receive-prefix toy accepting key salt tt (text ∷ []) arriving_bytes rooms refl (omega arith, tt)
      arriving_bytes-AreAlive refl refl

send_lem_example :
    let x = (send toy 1 text (starting toy key salt slow)).1 in
    (chunks : List (List ℕ)) × (rest : List ℕ) × AreShort chunks
    × (x.sent ++ unsent x.writer.state x.writer.buffer ≡ salt ++ wire toy (toy.new key salt) chunks)
    × (concat chunks ++ rest ≡ text)
send_lem_example = send_lem toy 1 key salt text slow

abbrev forged : List ReadEvent
forged = ReadEvent.arrived (1 ∷ 2 ∷ 0 ∷ 5 ∷ 9 ∷ []) ∷ ReadEvent.failed IoErrorKind.other_kind ∷ []

poll_read_decrypted_total_example :
    (a : Answer toy accepting) × (poll_read_decrypted toy accepting 2
        (arriving {e = toy} {c = accepting} key tt forged)
      ≡ some a)
poll_read_decrypted_total_example =
    poll_read_decrypted_total 2 (arriving {e = toy} {c = accepting} key tt forged)

-- A datagram to 127.0.0.1:80.
abbrev target : Address
target =
    Address.socket_address
      (SocketAddr.v4 (record { ip = record { a = 127; b = 0; c = 0; d = 1 }; port = 80 }))

abbrev target-IsWire : IsWire target
target-IsWire = ((omega arith, omega arith, omega arith, omega arith), omega arith)

decrypt-encrypt_payload_aead_example :
    (packet buffer : List ℕ) × (encrypt_payload_aead toy key target (5 ∷ 6 ∷ []) salt ≡ ok packet)
    × (decrypt_payload_aead toy key packet ≡ ok (2, target, buffer))
    × (take 2 buffer ≡ 5 ∷ 6 ∷ [])
decrypt-encrypt_payload_aead_example =
    decrypt-encrypt_payload_aead toy key target (5 ∷ 6 ∷ []) salt target-IsWire (ground arith) refl

decrypt_payload_aead-panic_iff_example :
    (decrypt_payload_aead toy key (1 ∷ 2 ∷ 3 ∷ 1 ∷ 97 ∷ 0 ∷ 7 ∷ []) ≡ panic)
    ↔ (IsAuthentic toy key (1 ∷ 2 ∷ 3 ∷ 1 ∷ 97 ∷ 0 ∷ 7 ∷ []) × IsPortCut (3 ∷ 1 ∷ 97 ∷ 0 ∷ []))
decrypt_payload_aead-panic_iff_example =
    decrypt_payload_aead-panic_iff toy key (1 ∷ 2 ∷ 3 ∷ 1 ∷ 97 ∷ 0 ∷ 7 ∷ [])

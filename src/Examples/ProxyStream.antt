-- ===== src/Examples/ProxyStream.antt =====
-- Theorem instances for crates/shadowsocks/src/relay/tcprelay/proxy_stream.
use mobile_android_obfuscati.Common.{
  ℕ, zero, suc, ◌+◌, ◌<◌, ◌≡◌, refl, sym, arith, All, List, [], ◌∷◌, ◌++◌, length, take,
  length-append, ok,
}
use mobile_android_obfuscati.Net.{SocketAddr}
use mobile_android_obfuscati.Socks5.Address
use mobile_android_obfuscati.Socks5.Address.{Address}
use mobile_android_obfuscati.Socks5.Address.RoundTrip.{IsWire, encoding}
use mobile_android_obfuscati.Aead.Async.{Poll}
use mobile_android_obfuscati.Aead.Transport.{ReadEvent, WriteEvent}
use mobile_android_obfuscati.Aead.Wire.{wire}
use mobile_android_obfuscati.Aead.Reader.Receive.{receive, arriving}
use mobile_android_obfuscati.Aead.Writer
use mobile_android_obfuscati.Aead.Reader.{max_packet_size}
use mobile_android_obfuscati.ProxyStream.Protocol.{
  CipherCategory, Aead2022TcpRequestHeader, TcpRequestHeader, read_from, aead_2022_write_to_buf,
  aead_2022_serialized_len, get_aead_2022_padding_size,
}
use mobile_android_obfuscati.ProxyStream.Protocol.RoundTrip.{aead_2022_write_to_buf-omits_address}
use mobile_android_obfuscati.ProxyStream.Client
use mobile_android_obfuscati.ProxyStream.Client.{
  make_first_packet_buffer, ProxyClientStreamWriteState,
}
use mobile_android_obfuscati.Common.{false, true, err, IoErrorKind}
use mobile_android_obfuscati.ProxyStream.Server.{handshake}
use mobile_android_obfuscati.ProxyStream.Server.Handshake.{handshake-make_first_packet_buffer}
use mobile_android_obfuscati.ProxyStream.Client.Writes.{write, connecting_to}
use mobile_android_obfuscati.ProxyStream.Client.Arrives.{read_from-receive-write, write-first_loses}
use mobile_android_obfuscati.Examples.Aead.Toy.{toy, accepting}

abbrev key : List ℕ
key = 7 ∷ []

abbrev salt : List ℕ
salt = 1 ∷ 2 ∷ []

abbrev target : Address
target =
    Address.socket_address
      (SocketAddr.v4 (record { ip = record { a = 127; b = 0; c = 0; d = 1 }; port = 80 }))

abbrev target-IsWire : IsWire target
target-IsWire = ((omega arith, omega arith, omega arith, omega arith), omega arith)

abbrev sent_bytes : List ℕ
sent_bytes =
    (write toy 2 (5 ∷ []) (
      connecting_to toy key salt target
        (WriteEvent.accepts 4 ∷ WriteEvent.pending ∷ []))).1.output.sent

abbrev arriving_bytes : List ReadEvent
arriving_bytes =
    ReadEvent.arrived (1 ∷ 2 ∷ 0 ∷ 8 ∷ [])
    ∷ ReadEvent.pending
    ∷ ReadEvent.arrived (7 ∷ 1 ∷ 127 ∷ 0 ∷ 0 ∷ 1 ∷ 0 ∷ 80 ∷ 5 ∷ 8 ∷ [])
    ∷ []

sent_bytes_lem : sent_bytes ≡ (1 ∷ 2 ∷ 0 ∷ 8 ∷ 7 ∷ 1 ∷ 127 ∷ 0 ∷ 0 ∷ 1 ∷ 0 ∷ 80 ∷ 5 ∷ 8 ∷ [])
unfolding Client.poll_write make_first_packet_buffer Client.write_connecting
    Client.poll_write_encrypted Address.write_to_buf Writer.poll_write_encrypted Writer.truncate
    Writer.assemble Writer.write_out Writer.drain Writer.new
sent_bytes_lem = refl

abbrev rooms : List ℕ
rooms = 4 ∷ 4 ∷ 4 ∷ 4 ∷ 4 ∷ 4 ∷ 4 ∷ 4 ∷ 4 ∷ []

abbrev all_rooms : All (λ room. 0 < room) rooms
all_rooms = (
  omega arith,
  (
    omega arith,
    (
      omega arith,
      (omega arith, (omega arith, (omega arith, (omega arith, (omega arith, (omega arith, tt)))))),
    ),
  ),
)

read_from-receive-write_example :
    read_from CipherCategory.aead
      (receive toy accepting rooms (arriving {e = toy} {c = accepting} key tt arriving_bytes))
    ≡ ok (TcpRequestHeader.stream (record { addr = target }), 5 ∷ [])
read_from-receive-write_example =
    read_from-receive-write toy accepting 2 key salt target (5 ∷ [])
      (WriteEvent.accepts 4 ∷ WriteEvent.pending ∷ []) tt arriving_bytes rooms target-IsWire
      (omega arith) refl (omega arith, (tt, tt)) (omega arith)
      (omega arith, (tt, (omega arith, tt))) (sym sent_bytes_lem) refl all_rooms (omega arith)

-- A client that sends a padding.
handshake-make_first_packet_buffer_example :
    (packet : List ℕ) × (make_first_packet_buffer CipherCategory.aead_2022 target [] 902
        (0 ∷ 0 ∷ [])
      ≡ ok packet)
    × (handshake CipherCategory.aead_2022 (packet ∷ (5 ∷ 6 ∷ []) ∷ []) false
        ≡ (ok (target, 5 ∷ 6 ∷ []), true))
handshake-make_first_packet_buffer_example =
    handshake-make_first_packet_buffer target [] 902 (0 ∷ 0 ∷ []) ((5 ∷ 6 ∷ []) ∷ [])
      CipherCategory.aead_2022 target-IsWire (unfold get_aead_2022_padding_size in refl)

-- A client for which a padding of no bytes was drawn.
bare_refused :
    (packet : List ℕ) × (make_first_packet_buffer CipherCategory.aead_2022 target [] 1800 []
      ≡ ok packet)
    × (handshake CipherCategory.aead_2022 (packet ∷ (5 ∷ 6 ∷ []) ∷ []) false
        ≡ (err IoErrorKind.other_kind, true))
bare_refused =
    handshake-make_first_packet_buffer target [] 1800 [] ((5 ∷ 6 ∷ []) ∷ [])
      CipherCategory.aead_2022 target-IsWire (unfold get_aead_2022_padding_size in refl)

abbrev header : Aead2022TcpRequestHeader
header = record { addr = target; padding_size = 2 }

aead_2022_write_to_buf-omits_address_example :
    (bytes : List ℕ) × (aead_2022_write_to_buf header (0 ∷ 0 ∷ []) [] ≡ ok bytes)
    × (aead_2022_write_to_buf
          (record header { addr = Address.domain_name_address [] 0 })
          (0 ∷ 0 ∷ [])
          []
        ≡ ok bytes)
    × (length bytes + Address.serialized_len target ≡ aead_2022_serialized_len header)
aead_2022_write_to_buf-omits_address_example =
    aead_2022_write_to_buf-omits_address header (Address.domain_name_address [] 0) (0 ∷ 0 ∷ []) []
      (omega arith) refl

-- So many zeros.
abbrev zeros : ℕ → List ℕ
zeros zero = []
zeros (suc n) = 0 ∷ zeros n

length-zeros : (n : ℕ) → length (zeros n) ≡ n
length-zeros zero = refl
length-zeros (suc n) = omega (arith, length-zeros n)

long : (n : ℕ) → n < length (encoding target ++ zeros n)
long n = omega (arith, length-append (encoding target) (zeros n), length-zeros n)

write-first_loses_example :
    let (outcome, x) = write toy 1 (zeros max_packet_size) (connecting_to toy key salt target []) in
    (outcome ≡ Poll.ready (ok (length (zeros max_packet_size))))
    × (x.output.sent
        ≡ salt ++ wire toy 7 (take max_packet_size (encoding target ++ zeros max_packet_size) ∷ []))
    × (x.writer_state ≡ ProxyClientStreamWriteState.connected)
    × (x.output.writer.state ≡ Writer.EncryptWriteState.assemble_packet)
    × (x.output.writer.buffer ≡ [])
write-first_loses_example =
    write-first_loses toy 1 key salt target (zeros max_packet_size) [] target-IsWire
      (long max_packet_size) tt (omega arith)

-- ===== src/Examples/StreamCipher.antt =====
-- Theorem instances for crates/shadowsocks/src/relay/tcprelay/stream.rs, with a cipher that adds the
-- position of a byte to it.
use mobile_android_obfuscati.Common.{
  ℕ, suc, ◌+◌, ◌-◌, ◌≡◌, refl, sym, ap, arith, true, List, [], ◌∷◌, ◌++◌, length,
}
use mobile_android_obfuscati.Aead.Transport.{ReadEvent, WriteEvent}
use mobile_android_obfuscati.Aead.Writer.{drain}
use mobile_android_obfuscati.StreamCipher.{StreamCipher}
use mobile_android_obfuscati.StreamCipher.Reader.Receives.{receive, arriving}
use mobile_android_obfuscati.StreamCipher.Writer
use mobile_android_obfuscati.StreamCipher.Writer.Sends.{write_each, starting}
use mobile_android_obfuscati.StreamCipher.EndToEnd.{receive-write_each}
use mobile_android_obfuscati.Common.{take, ok}
use mobile_android_obfuscati.Net.{SocketAddr}
use mobile_android_obfuscati.Socks5.Address.{Address}
use mobile_android_obfuscati.UdpRelay.Stream.{encrypt_payload_stream, decrypt_payload_stream}
use mobile_android_obfuscati.UdpRelay.Stream.RoundTrip.{decrypt-encrypt_payload_stream}
use mobile_android_obfuscati.Examples.Aead.Toy.{accepting}

abbrev shifted : ℕ → List ℕ → List ℕ × ℕ
shifted c [] = ([], c)
shifted c (b ∷ p) = let (rest, next) = shifted (suc c) p in ((b + c) ∷ rest, next)

abbrev unshifted : ℕ → List ℕ → List ℕ × ℕ
unshifted c [] = ([], c)
unshifted c (b ∷ p) = let (rest, next) = unshifted (suc c) p in ((b - c) ∷ rest, next)

length-shifted : (c : ℕ) (p : List ℕ) → length (shifted c p).0 ≡ length p
length-shifted c [] = refl
length-shifted c (b ∷ p) = ap suc (length-shifted (suc c) p)

shifted-append :
    (c : ℕ) (p q : List ℕ)
    → shifted c (p ++ q)
      ≡ ((shifted c p).0 ++ (shifted (shifted c p).1 q).0, (shifted (shifted c p).1 q).1)
shifted-append c [] q = refl
shifted-append c (b ∷ p) q = ap (λ r. ((b + c) ∷ r.0, r.1)) (shifted-append (suc c) p q)

unshifted-shifted : (c : ℕ) (p : List ℕ) → unshifted c (shifted c p).0 ≡ (p, (shifted c p).1)
unshifted-shifted c [] = refl
unshifted-shifted c (b ∷ p) =
    let back : b + c - c ≡ b = omega arith in
    rw back (ap (λ r. (b ∷ r.0, r.1)) (unshifted-shifted (suc c) p))

abbrev shifting : StreamCipher
shifting = record {
  Cipher = ℕ;
  iv_len = 2;
  new = λ key iv. 3;
  encrypt_packet = shifted;
  decrypt_packet = λ c m. let (p, next) = unshifted c m in (true, p, next);
  length-encrypt_packet = length-shifted;
  encrypt_packet-nil = λ c. refl;
  encrypt_packet-append = shifted-append;
  decrypt-encrypt = λ c p. ap (λ r. (true, r.0, r.1)) (unshifted-shifted c p);
}

abbrev slow : List WriteEvent
slow = WriteEvent.accepts 1 ∷ WriteEvent.pending ∷ WriteEvent.accepts 3 ∷ []

abbrev sent_bytes : List ℕ
sent_bytes =
    (write_each shifting 2 ((5 ∷ 6 ∷ []) ∷ (7 ∷ []) ∷ [])
      (starting shifting [] (1 ∷ 2 ∷ []) slow)).sent

sent_bytes_lem : sent_bytes ≡ (1 ∷ 2 ∷ 8 ∷ 10 ∷ 12 ∷ [])
unfolding Writer.poll_write_encrypted Writer.assemble Writer.write_out drain Writer.new
sent_bytes_lem = refl

abbrev arriving_bytes : List ReadEvent
arriving_bytes =
    ReadEvent.arrived (1 ∷ []) ∷ ReadEvent.pending ∷ ReadEvent.arrived (2 ∷ 8 ∷ 10 ∷ 12 ∷ []) ∷ []

abbrev rooms : List ℕ
rooms = 2 ∷ 2 ∷ 2 ∷ 2 ∷ []

receive-write_each_example :
    receive shifting accepting rooms (arriving shifting accepting [] tt arriving_bytes)
    ≡ 5 ∷ 6 ∷ 7 ∷ []
receive-write_each_example =
    receive-write_each shifting accepting 2 [] (1 ∷ 2 ∷ []) (5 ∷ 6 ∷ []) ((7 ∷ []) ∷ []) slow tt
      arriving_bytes rooms refl (omega arith, (tt, (omega arith, tt))) (omega arith)
      (omega arith, (tt, (omega arith, tt))) (sym sent_bytes_lem) refl
      (omega arith, (omega arith, (omega arith, (omega arith, tt)))) (omega arith)

-- A datagram to 127.0.0.1:80.
abbrev target : Address
target =
    Address.socket_address
      (SocketAddr.v4 (record { ip = record { a = 127; b = 0; c = 0; d = 1 }; port = 80 }))

decrypt-encrypt_payload_stream_example :
    (packet buffer : List ℕ) × (encrypt_payload_stream shifting [] target (5 ∷ 6 ∷ []) (1 ∷ 2 ∷ [])
      ≡ ok packet)
    × (decrypt_payload_stream shifting [] packet ≡ ok (2, target, buffer))
    × (take 2 buffer ≡ 5 ∷ 6 ∷ [])
decrypt-encrypt_payload_stream_example =
    decrypt-encrypt_payload_stream shifting [] target (5 ∷ 6 ∷ []) (1 ∷ 2 ∷ [])
      ((omega arith, omega arith, omega arith, omega arith), omega arith) (ground arith) refl

-- ===== src/ProxyStream/Client/Arrives.antt =====
-- What the server makes of the first write of a client.
use mathlib.Core.List.{append-nil}
use mobile_android_obfuscati.Common.{
  ℕ, ◌+◌, ◌≤◌, ◌<◌, ◌≡◌, refl, ap, ◌∙◌, arith, ltb, List, [], ◌∷◌, ◌++◌, length, take, All,
  if◌then◌else◌,
}
use mobile_android_obfuscati.Common.{ok}
use mobile_android_obfuscati.Socks5.Address.{Address}
use mobile_android_obfuscati.Socks5.Address.RoundTrip.{IsWire, encoding, read_from-encoding}
use mobile_android_obfuscati.Aead.Async.{Poll}
use mobile_android_obfuscati.Aead.Cipher.{Aead, NonceCheck}
use mobile_android_obfuscati.Aead.Transport.{
  ReadEvent, WriteEvent, incoming, AreAlive, pendings, WritesAreAlive, write_pendings,
}
use mobile_android_obfuscati.Aead.Wire.{wire}
use mobile_android_obfuscati.Aead.Reader.{max_packet_size}
use mobile_android_obfuscati.Aead.Reader.Receive.{receive, arriving, receive-wire}
use mobile_android_obfuscati.Aead.Writer.{EncryptWriteState, truncate}
use mobile_android_obfuscati.ProxyStream.Client.{ProxyClientStreamWriteState}
use mobile_android_obfuscati.ProxyStream.Protocol.{
  CipherCategory, TcpRequestHeader, stream_read_from, read_from,
}
use mobile_android_obfuscati.ProxyStream.Client.Writes.{write, connecting_to, write-first}

cut_short :
    (n : ℕ) (buf : List ℕ) → length buf ≤ n → (if ltb n (length buf) then take n buf else buf) ≡ buf
cut_short n buf h = ground arith

cut_long :
    (n : ℕ) (buf : List ℕ)
    → n < length buf
    → (if ltb n (length buf) then take n buf else buf) ≡ take n buf
cut_long n buf h = ground arith

truncate-short : (buf : List ℕ) → length buf ≤ max_packet_size → truncate buf ≡ buf
unfolding truncate
truncate-short buf h = cut_short max_packet_size buf h

truncate-long :
    (buf : List ℕ) → max_packet_size < length buf → truncate buf ≡ take max_packet_size buf
unfolding truncate
truncate-long buf h = cut_long max_packet_size buf h

module _ (e : Aead) (c : NonceCheck) where
  -- A server that receives, however it is cut up, what the first write of a client has sent reads the
  -- address of the target and then the payload, if the two fit into one chunk, the salt is accepted and
  -- both sides poll often enough.
  pub read_from-receive-write :
      (polls : ℕ) (key salt : List ℕ) (addr : Address) (payload : List ℕ) (out : List WriteEvent)
      (context : c.Context) (in_stream : List ReadEvent) (rooms : List ℕ)
      → IsWire addr
      → length (encoding addr ++ payload) ≤ max_packet_size
      → length salt ≡ e.salt_len
      → WritesAreAlive out
      → write_pendings out < polls
      → AreAlive in_stream
      → incoming in_stream
        ≡ (write e polls payload (connecting_to e key salt addr out)).1.output.sent
      → (c.check_nonce_replay context salt).0 ≡ ok tt
      → All (λ room. 0 < room) rooms
      → length (encoding addr ++ payload) + pendings in_stream ≤ length rooms
      → read_from CipherCategory.aead (receive e c rooms (arriving key context in_stream))
        ≡ ok (TcpRequestHeader.stream (record { addr = addr }), payload)
  unfolding read_from stream_read_from
  read_from-receive-write polls key salt addr payload out context in_stream rooms w fits len lives
        enough alive same accepted roomy long =
      let packet = encoding addr ++ payload in
      let (_, _, sent, _, _) = write-first e polls key salt addr payload out w lives enough in
      let whole : wire e (e.new key salt) (truncate packet ∷ [])
          ≡ wire e (e.new key salt) (packet ∷ []) =
        ap (λ p. wire e (e.new key salt) (p ∷ [])) (truncate-short packet fits) in
      let arrives =
        receive-wire e c key salt context (packet ∷ []) in_stream rooms len (fits, tt) alive
          (same ∙ sent ∙ ap (λ t. salt ++ t) whole) accepted roomy (rw (append-nil packet) long) in
      rw (arrives, append-nil packet, read_from-encoding addr payload w) refl

module _ (e : Aead) where
  -- If the address has an encoding and does not fit into one chunk with the payload, the first write of a
  -- release build, over a stream that stays alive and polled more often than the stream pauses, still
  -- reports all of the payload as written. The stream has then taken the salt and one chunk with the first
  -- 0x3FFF bytes of the two, the client is connected, and its writer is at rest with an empty buffer.
  pub write-first_loses :
      (polls : ℕ) (key salt : List ℕ) (addr : Address) (payload : List ℕ) (stream : List WriteEvent)
      → IsWire addr
      → max_packet_size < length (encoding addr ++ payload)
      → WritesAreAlive stream
      → write_pendings stream < polls
      → let (outcome, x) = write e polls payload (connecting_to e key salt addr stream) in
        (outcome ≡ Poll.ready (ok (length payload)))
        × (x.output.sent
            ≡ salt
              ++ wire e (e.new key salt) (take max_packet_size (encoding addr ++ payload) ∷ []))
        × (x.writer_state ≡ ProxyClientStreamWriteState.connected)
        × (x.output.writer.state ≡ EncryptWriteState.assemble_packet)
        × (x.output.writer.buffer ≡ [])
  write-first_loses polls key salt addr payload stream w long lives enough =
      let (outcome, connected, sent, rest, empty) =
        write-first e polls key salt addr payload stream w lives enough in
      (
        outcome,
        sent
            ∙ ap (λ p. salt ++ wire e (e.new key salt) (p ∷ []))
                (truncate-long (encoding addr ++ payload) long),
        connected,
        rest,
        empty,
      )

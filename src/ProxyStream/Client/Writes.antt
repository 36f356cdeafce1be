-- ===== src/ProxyStream/Client/Writes.antt =====
-- The first write of a client.
use mathlib.Core.List.{append-nil}
use mobile_android_obfuscati.Common.{
  ℕ, zero, suc, ◌≤◌, ◌<◌, ◌≡◌, refl, sym, subst, ap, ◌∙◌, arith, List, [], ◌∷◌, ◌++◌, length,
}
use mobile_android_obfuscati.Common.{Result, ok, IoErrorKind}
use mobile_android_obfuscati.Socks5.Address.{Address}
use mobile_android_obfuscati.Socks5.Address.RoundTrip.{IsWire, encoding, write_to_buf-encoding}
use mobile_android_obfuscati.Aead.Async.{Poll}
use mobile_android_obfuscati.Aead.Cipher.{Aead}
use mobile_android_obfuscati.Aead.Transport.{WriteEvent, WritesAreAlive, write_pendings}
use mobile_android_obfuscati.Aead.Wire.{wire}
use mobile_android_obfuscati.Aead.Writer
use mobile_android_obfuscati.Aead.Writer.{EncryptWriteState, Output, truncate}
use mobile_android_obfuscati.Aead.Writer.Sends.{unsent, Sends, Wrote, poll_at_rest, poll_amid}
use mobile_android_obfuscati.Aead.Writer.Send.{starting, new-Sends}
use mobile_android_obfuscati.ProxyStream.Client.{
  make_first_packet_buffer, ProxyClientStreamWriteState, ProxyClientStream, poll_write_encrypted,
  write_connecting, dispatch, poll_write,
}

module _ (e : Aead) where
  abbrev pub Answer : Type 0
  Answer = Poll (Result IoErrorKind ℕ) × ProxyClientStream e

  abbrev pub unless_pending : Answer → (ProxyClientStream e → Answer) → Answer
  unless_pending (Poll.pending, x) again = again x
  unless_pending (Poll.ready outcome, x) again = (Poll.ready outcome, x)

  -- A caller that polls until the write is over, at most so often.
  abbrev pub write : ℕ → List ℕ → ProxyClientStream e → Answer
  write zero buf x = (Poll.pending, x)
  write (suc polls) buf x = unless_pending (poll_write e buf x) (write polls buf)

  abbrev pub connecting_to : List ℕ → List ℕ → Address → List WriteEvent → ProxyClientStream e
  connecting_to key salt addr stream = record {
    writer_state = ProxyClientStreamWriteState.connect addr;
    output = starting e key salt stream;
  }

module _ {e : Aead} where
  -- The states of a client whose first packet is `buffer`.
  data First (key salt buffer : List ℕ) (x : ProxyClientStream e) : Type 0 where
    at_rest :
        x.writer_state ≡ ProxyClientStreamWriteState.connecting buffer
        → Sends key salt [] x.output
        → x.output.writer.state ≡ EncryptWriteState.assemble_packet
        → First key salt buffer x
    amid :
        (pos : ℕ)
        → x.writer_state ≡ ProxyClientStreamWriteState.connecting buffer
        → Sends key salt (truncate buffer ∷ []) x.output
        → x.output.writer.state ≡ EncryptWriteState.writing pos
        → pos ≤ length x.output.writer.buffer
        → First key salt buffer x

  -- The write is over: the stream has taken the salt and one chunk, and the writer holds nothing.
  abbrev pub Written : List ℕ → List ℕ → List ℕ → List ℕ → Answer e → Type 0
  Written key salt buffer buf r =
      (r.0 ≡ Poll.ready (ok (length buf)))
      × (r.1.writer_state ≡ ProxyClientStreamWriteState.connected)
      × (r.1.output.sent ≡ salt ++ wire e (e.new key salt) (truncate buffer ∷ []))
      × (r.1.output.writer.state ≡ EncryptWriteState.assemble_packet)
      × (r.1.output.writer.buffer ≡ [])

  poll-First :
      (key salt buffer : List ℕ) (x : ProxyClientStream e)
      → First key salt buffer x
      → Wrote key salt
          (truncate buffer ∷ [])
          (truncate buffer)
          x.output.stream
          (Writer.poll_write_encrypted e buffer x.output)
  poll-First key salt buffer x (First.at_rest is sends rest) =
      poll_at_rest key salt [] buffer x.output sends rest
  poll-First key salt buffer x (First.amid pos is sends rest le) =
      poll_amid key salt (truncate buffer ∷ []) buffer pos x.output sends rest le

  state-First :
      (key salt buffer : List ℕ) (x : ProxyClientStream e)
      → First key salt buffer x
      → x.writer_state ≡ ProxyClientStreamWriteState.connecting buffer
  state-First key salt buffer x (First.at_rest is sends rest) = is
  state-First key salt buffer x (First.amid pos is sends rest le) = is

  connecting-Wrote :
      (polls : ℕ) (key salt buffer buf : List ℕ) (x : ProxyClientStream e)
      (r : Poll (Result IoErrorKind ℕ) × Output e)
      → x.writer_state ≡ ProxyClientStreamWriteState.connecting buffer
      → Writer.poll_write_encrypted e buffer x.output ≡ r
      → Wrote key salt (truncate buffer ∷ []) (truncate buffer) x.output.stream r
      → WritesAreAlive x.output.stream
      → write_pendings x.output.stream ≤ polls
      → ((y : ProxyClientStream e)
          → First key salt buffer y
          → WritesAreAlive y.output.stream
          → write_pendings y.output.stream < polls
          → Written key salt buffer buf (write e polls buf y))
      → Written key salt buffer buf
          (unless_pending e (write_connecting e buffer buf x) (write e polls buf))
  unfolding write_connecting poll_write_encrypted
  connecting-Wrote polls key salt buffer buf x (r, y) at eq (Wrote.done is sends rest empty lives)
        alive enough next =
      let none_left : unsent y.writer.state y.writer.buffer ≡ [] =
        ap (λ s. unsent s y.writer.buffer) rest ∙ empty in
      rw (eq, is)
        (
          refl,
          refl,
          sym (append-nil y.sent) ∙ ap (λ t. y.sent ++ t) (sym none_left) ∙ sends.bytes_are,
          rest,
          empty,
        )
  connecting-Wrote polls key salt buffer buf x (r, y) at eq (Wrote.waits pos is sends rest le lives)
        alive enough next =
      rw (eq, is)
        (next (record x { output = y }) (First.amid pos at sends rest le) (lives alive).0
          (omega (arith, (lives alive).1)))
  connecting-Wrote polls key salt buffer buf x (r, y) at eq
        (Wrote.fails pos k is sends rest le lives) alive enough next =
      absurd (lives alive)

  write-First :
      (polls : ℕ) (key salt buffer buf : List ℕ) (x : ProxyClientStream e)
      → First key salt buffer x
      → WritesAreAlive x.output.stream
      → write_pendings x.output.stream < polls
      → Written key salt buffer buf (write e polls buf x)
  unfolding poll_write
  write-First zero key salt buffer buf x first alive enough = absurd (omega arith)
  write-First (suc polls) key salt buffer buf x first alive enough =
      let at = state-First key salt buffer x first in
      subst
        (λ s.
          Written key salt buffer buf (unless_pending e (dispatch e buf s x) (write e polls buf)))
        (sym at)
        (connecting-Wrote polls key salt buffer buf x
          (Writer.poll_write_encrypted e buffer x.output) at refl
          (poll-First key salt buffer x first) alive (omega arith)
          (write-First polls key salt buffer buf))

module _ (e : Aead) where
  -- The first write of a client, polled more often than the stream pauses, over a stream that stays
  -- alive and to an address that has an encoding, reports all of the payload as written. The stream has
  -- taken the salt and one chunk: at most 0x3FFF bytes of the address and the payload.
  pub write-first :
      (polls : ℕ) (key salt : List ℕ) (addr : Address) (payload : List ℕ) (stream : List WriteEvent)
      → IsWire addr
      → WritesAreAlive stream
      → write_pendings stream < polls
      → Written key salt
          (encoding addr ++ payload)
          payload
          (write e polls payload (connecting_to e key salt addr stream))
  unfolding poll_write make_first_packet_buffer
  write-first zero key salt addr payload stream w alive enough = absurd (omega arith)
  write-first (suc polls) key salt addr payload stream w alive enough =
      let buffer = encoding addr ++ payload in
      let x : ProxyClientStream e = record {
        writer_state = ProxyClientStreamWriteState.connecting buffer;
        output = starting e key salt stream;
      } in
      rw (write_to_buf-encoding {E = IoErrorKind} addr [] w) (
        connecting-Wrote polls key salt buffer payload x
          (Writer.poll_write_encrypted e buffer x.output) refl refl
          (poll_at_rest key salt [] buffer x.output (new-Sends key salt stream)
            (unfold Writer.new in refl))
          alive (omega arith) (write-First polls key salt buffer payload))

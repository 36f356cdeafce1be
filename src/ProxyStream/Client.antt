-- ===== src/ProxyStream/Client.antt =====
-- The write side of `ProxyClientStream` of crates/shadowsocks/src/relay/tcprelay/proxy_stream/client.rs,
-- over an AEAD method.
pub mod FirstPacket
pub mod Writes
pub mod Arrives
use mobile_android_obfuscati.Common.{
  ℕ, Bool, true, false, List, [], ◌∷◌, ◌++◌, length, if◌then◌else◌,
}
use mobile_android_obfuscati.Common.{Result, ok, err, panic, ◌>>=◌, IoErrorKind}
use mobile_android_obfuscati.Common.Bytes.{be_bytes}
use mobile_android_obfuscati.Socks5.Address
use mobile_android_obfuscati.Socks5.Address.{Address}
use mobile_android_obfuscati.Aead.Async
use mobile_android_obfuscati.Aead.Async.{Poll, M}
use mobile_android_obfuscati.Aead.Cipher.{Aead}
use mobile_android_obfuscati.Aead.Writer
use mobile_android_obfuscati.Aead.Writer.{Output}
use mobile_android_obfuscati.ProxyStream.Protocol.{CipherCategory, get_aead_2022_padding_size}

-- The address, for AEAD 2022 the padding, and the payload.
unfoldable pub make_first_packet_buffer :
    CipherCategory → Address → List ℕ → ℕ → List ℕ → Result IoErrorKind (List ℕ)
make_first_packet_buffer CipherCategory.aead_2022 addr buf random padding = do
  let padding_size = get_aead_2022_padding_size buf random
  buffer ← Address.write_to_buf addr []
  ok (((buffer ++ be_bytes padding_size) ++ padding) ++ buf)
make_first_packet_buffer _ addr buf random padding = do
  buffer ← Address.write_to_buf addr []
  ok (buffer ++ buf)

pub data ProxyClientStreamWriteState : Type 0 where
  connect : Address → ProxyClientStreamWriteState
  connecting : List ℕ → ProxyClientStreamWriteState
  connected : ProxyClientStreamWriteState

module _ (e : Aead) where
  pub record ProxyClientStream : Type 0 where
    pub writer_state : ProxyClientStreamWriteState
    pub output : Output e

  abbrev pub Polled : Type 0 → Type 0
  Polled A = M ProxyClientStream IoErrorKind A

  abbrev pub on_output :
      ProxyClientStream
      → Poll (Result IoErrorKind ℕ) × Output e
      → Poll (Result IoErrorKind ℕ) × ProxyClientStream
  on_output x (outcome, y) = (outcome, record x { output = y })

  unfoldable pub poll_write_encrypted : List ℕ → Polled ℕ
  poll_write_encrypted buf x = on_output x (Writer.poll_write_encrypted e buf x.output)

  unfoldable pub write_connecting : List ℕ → List ℕ → Polled ℕ
  write_connecting buffer buf = Async.◌>>=◌ (poll_write_encrypted buffer) (λ n.
      Async.◌>>=◌
        (Async.modify (λ x. record x { writer_state = ProxyClientStreamWriteState.connected }))
        (λ _. Async.pure (length buf)))

  abbrev pub started : List ℕ → Result IoErrorKind (List ℕ) → Polled ℕ
  started buf (ok buffer) x =
      write_connecting buffer buf
        (record x { writer_state = ProxyClientStreamWriteState.connecting buffer })
  started buf (err k) x = (Poll.ready (err k), x)
  started buf panic x = (Poll.ready panic, x)

  abbrev pub dispatch : List ℕ → ProxyClientStreamWriteState → Polled ℕ
  dispatch buf (ProxyClientStreamWriteState.connect addr) =
      started buf (make_first_packet_buffer CipherCategory.aead addr buf 0 [])
  dispatch buf (ProxyClientStreamWriteState.connecting buffer) = write_connecting buffer buf
  dispatch buf ProxyClientStreamWriteState.connected = poll_write_encrypted buf

  -- The loop makes at most two turns.
  unfoldable pub poll_write : List ℕ → Polled ℕ
  poll_write buf x = dispatch buf x.writer_state x

-- ===== src/Aead2022/Reader/Expects.antt =====
-- What a reader that is to receive a text has buffered, and what a turn of its loop may come to.
use mobile_android_obfuscati.Common.{
  ℕ, ◌+◌, ◌≤◌, ◌<◌, ◌≡◌, List, [], ◌∷◌, ◌++◌, length, drop, Option, none, some,
}
use mobile_android_obfuscati.Common.{Result, ok}
use mobile_android_obfuscati.Aead.Async.{Poll}
use mobile_android_obfuscati.Aead.Cipher.{Aead, NonceCheck}
use mobile_android_obfuscati.Aead.Transport.{ReadEvent, incoming, AreAlive, pendings}
use mobile_android_obfuscati.Aead.Wire.{wire, concat}
use mobile_android_obfuscati.Aead2022.Connection.{DecryptReadState, Connection}
use mobile_android_obfuscati.Aead2022.Identity.{Primitives}
use mobile_android_obfuscati.Aead2022.Header.{ProtocolError, abs_diff}
use mobile_android_obfuscati.Aead2022.Handshake.{header_len, read_whole_header}
use mobile_android_obfuscati.Aead2022.Reader.Steps.{with_fill}

-- What arrives first, after the pauses.
abbrev pub first_arrival : List ReadEvent → List ℕ
first_arrival [] = []
first_arrival (ReadEvent.pending ∷ es) = first_arrival es
first_arrival (ReadEvent.arrived bs ∷ es) = bs
first_arrival (ReadEvent.failed k ∷ es) = []

module _ {e : Aead} {c : NonceCheck} (b : Primitives) where
  -- Whatever is in the buffer and in the stream, the header `h` is read: data of the length `n` follows,
  -- encrypted by the cipher `s`.
  abbrev pub ReadsHeader : ℕ → List ℕ → List ℕ → ℕ → e.Cipher → Connection e c → Type 0
  ReadsHeader now key h n s x =
      (buffer : List ℕ) (es : List ReadEvent)
      → (y : Connection e c) × (read_whole_header e c b now key h (with_fill x buffer es)
          ≡ (Poll.ready (ok (some n)), y))
        × (y.reader.cipher ≡ some s)
        × (y.stream ≡ es)

module _ {e : Aead} {c : NonceCheck} (b : Primitives) (time : ℕ) where
  -- The bytes that are buffered or yet to come are the rest of a stream that carries the text.
  pub data Expects (x : Connection e c) (text : List ℕ) : Type 0 where
    at_header :
        (key h : List ℕ) (s : e.Cipher) (p : List ℕ) (ps : List (List ℕ))
        → x.reader.state ≡ DecryptReadState.read_header key
        → length h ≡ header_len x.reader
        → length h ≤ length (first_arrival x.stream)
        → incoming x.stream ≡ h ++ ((e.encrypt_packet s p).0 ++ wire e (e.encrypt_packet s p).1 ps)
        → ((now : ℕ) → abs_diff now time ≤ 30 → ReadsHeader b now key h (length p) s x)
        → text ≡ p ++ concat ps
        → Expects x text
    at_length :
        (s : e.Cipher) (ps : List (List ℕ))
        → x.reader.state ≡ DecryptReadState.read_length
        → x.reader.cipher ≡ some s
        → length x.reader.buffer ≤ 2 + e.tag_len
        → x.reader.buffer ++ incoming x.stream ≡ wire e s ps
        → text ≡ concat ps
        → Expects x text
    at_data :
        (s : e.Cipher) (p : List ℕ) (ps : List (List ℕ))
        → x.reader.state ≡ DecryptReadState.read_data (length p)
        → x.reader.cipher ≡ some s
        → length x.reader.buffer ≤ length p + e.tag_len
        → x.reader.buffer ++ incoming x.stream
          ≡ (e.encrypt_packet s p).0 ++ wire e (e.encrypt_packet s p).1 ps
        → text ≡ p ++ concat ps
        → Expects x text
    buffered :
        (s : e.Cipher) (ps : List (List ℕ)) (pos : ℕ)
        → x.reader.state ≡ DecryptReadState.buffered_data pos
        → x.reader.cipher ≡ some s
        → incoming x.stream ≡ wire e s ps
        → text ≡ drop pos x.reader.buffer ++ concat ps
        → Expects x text

  -- What a turn may come to.
  pub data Turn (remaining p : ℕ) (text : List ℕ)
      (r : Poll (Result ProtocolError (Option (List ℕ))) × Connection e c) : Type 0 where
    waits :
        r.0 ≡ Poll.pending
        → Expects r.1 text
        → AreAlive r.1.stream
        → pendings r.1.stream < p
        → Turn remaining p text r
    goes :
        r.0 ≡ Poll.ready (ok none)
        → Expects r.1 text
        → AreAlive r.1.stream
        → pendings r.1.stream ≤ p
        → Turn remaining p text r
    delivers :
        (out rest : List ℕ)
        → r.0 ≡ Poll.ready (ok (some out))
        → Expects r.1 rest
        → AreAlive r.1.stream
        → pendings r.1.stream ≤ p
        → out ++ rest ≡ text
        → length out ≤ remaining
        → (0 < remaining → 0 < length text → 0 < length out)
        → Turn remaining p text r

-- ===== src/Aead/Reader/Expects.antt =====
-- What a reader that is to receive a text has buffered, and what a turn of its loop may come to.
use mobile_android_obfuscati.Common.{
  ℕ, ◌+◌, ◌≤◌, ◌<◌, ◌≡◌, List, ◌++◌, length, drop, All, Option, none, some,
}
use mobile_android_obfuscati.Common.{Result, ok}
use mobile_android_obfuscati.Aead.Async.{Poll}
use mobile_android_obfuscati.Aead.Cipher.{Aead, NonceCheck}
use mobile_android_obfuscati.Aead.Transport.{incoming, AreAlive, pendings}
use mobile_android_obfuscati.Aead.Wire.{wire, concat}
use mobile_android_obfuscati.Aead.Reader.{
  max_packet_size, ProtocolError, DecryptReadState, Connection,
}

abbrev pub AreShort : List (List ℕ) → Type 0
AreShort ps = All (λ p. length p ≤ max_packet_size) ps

module _ {e : Aead} {c : NonceCheck} where
  -- The salt that is received is new.
  abbrev pub Accepts : Connection e c → Option (List ℕ) → Type 0
  Accepts x none = Unit
  Accepts x (some salt) = (c.check_nonce_replay x.context salt).0 ≡ ok tt

  -- The bytes that are buffered or yet to come are the rest of a stream that carries the text.
  pub data Expects (x : Connection e c) (text : List ℕ) : Type 0 where
    salted :
        (key salt : List ℕ) (ps : List (List ℕ))
        → x.reader.state ≡ DecryptReadState.wait_salt key
        → 0 < e.salt_len
        → length salt ≡ e.salt_len
        → length x.reader.buffer ≤ e.salt_len
        → x.reader.buffer ++ incoming x.stream ≡ salt ++ wire e (e.new key salt) ps
        → Accepts x (some salt)
        → AreShort ps
        → text ≡ concat ps
        → Expects x text
    at_length :
        (s : e.Cipher) (ps : List (List ℕ))
        → x.reader.state ≡ DecryptReadState.read_length
        → x.reader.cipher ≡ some s
        → length x.reader.buffer ≤ 2 + e.tag_len
        → x.reader.buffer ++ incoming x.stream ≡ wire e s ps
        → Accepts x x.reader.salt
        → AreShort ps
        → text ≡ concat ps
        → Expects x text
    at_data :
        (s : e.Cipher) (p : List ℕ) (ps : List (List ℕ))
        → x.reader.state ≡ DecryptReadState.read_data (length p)
        → x.reader.cipher ≡ some s
        → length x.reader.buffer ≤ length p + e.tag_len
        → x.reader.buffer ++ incoming x.stream
          ≡ (e.encrypt_packet s p).0 ++ wire e (e.encrypt_packet s p).1 ps
        → Accepts x x.reader.salt
        → AreShort ps
        → text ≡ p ++ concat ps
        → Expects x text
    buffered :
        (s : e.Cipher) (ps : List (List ℕ)) (pos : ℕ)
        → x.reader.state ≡ DecryptReadState.buffered_data pos
        → x.reader.cipher ≡ some s
        → incoming x.stream ≡ wire e s ps
        → Accepts x x.reader.salt
        → AreShort ps
        → text ≡ drop pos x.reader.buffer ++ concat ps
        → Expects x text

  -- What a turn may come to.
  pub data Turn (remaining p : ℕ) (text : List ℕ)
      (r : Poll (Result ProtocolError (Option (List ℕ))) × Connection e c) : Type 0 where
    waits :
        r.0 ≡ Poll.pending
        → Expects r.1 text
        → AreAlive r.1.stream
        → pendings r.1.stream < p
        → Turn remaining p text r
    goes :
        r.0 ≡ Poll.ready (ok none)
        → Expects r.1 text
        → AreAlive r.1.stream
        → pendings r.1.stream ≤ p
        → Turn remaining p text r
    delivers :
        (out rest : List ℕ)
        → r.0 ≡ Poll.ready (ok (some out))
        → Expects r.1 rest
        → AreAlive r.1.stream
        → pendings r.1.stream ≤ p
        → out ++ rest ≡ text
        → length out ≤ remaining
        → (0 < remaining → 0 < length text → 0 < length out)
        → Turn remaining p text r

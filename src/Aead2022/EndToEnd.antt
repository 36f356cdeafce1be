-- ===== src/Aead2022/EndToEnd.antt =====
-- A writer of crates/shadowsocks/src/relay/tcprelay/aead_2022.rs and the reader at the other end.
use mathlib.Core.List.{append-nil}
use mobile_android_obfuscati.Common.{
  ℕ, suc, ◌+◌, ◌^◌, ◌≤◌, ◌<◌, ◌≡◌, refl, sym, ap, ◌∙◌, arith, List, [], ◌∷◌, ◌++◌, length,
  length-append, All, Option, lt→ltb,
}
use mobile_android_obfuscati.Aead.Cipher.{Aead, NonceCheck}
use mobile_android_obfuscati.Aead.Transport.{
  ReadEvent, WriteEvent, incoming, AreAlive, pendings, WritesAreAlive, write_pendings,
}
use mobile_android_obfuscati.Aead.Wire.{concat}
use mobile_android_obfuscati.Aead2022.Identity.{Primitives, ServerUserManager}
use mobile_android_obfuscati.Aead2022.Header.{make_header}
use mobile_android_obfuscati.Aead2022.Header.RoundTrip.{peer, SaltFits, length-make_header}
use mobile_android_obfuscati.Aead2022.Connection.{DecryptReadState, Connection, with_user_manager}
use mobile_android_obfuscati.Aead2022.Handshake.{header_len}
use mobile_android_obfuscati.Aead2022.Handshake.Agrees.{read_whole_header-Understood}
use mobile_android_obfuscati.Aead2022.Handshake.Agrees.Keys.{
  identities, KeysAgree, length-identities,
}
use mobile_android_obfuscati.Aead2022.Handshake.Agrees.Opens.{SaltIsNew, still_new}
use mobile_android_obfuscati.Aead2022.Reader.Steps.{with_fill}
use mobile_android_obfuscati.Aead2022.Reader.Expects.{first_arrival, Expects}
use mobile_android_obfuscati.Aead2022.Reader.Receive.{receive, rooms_of, Timely, receive-Receives}
use mobile_android_obfuscati.Aead2022.Wire.{Opening, AreShort, header_of, transcript}
use mobile_android_obfuscati.Aead2022.Writer.Send.{send, starting, send_all_aead_2022}

module _ (e : Aead) (c : NonceCheck) where
  -- A new reader over a stream, at the other end of a writer.
  abbrev pub arriving :
      Opening → List ℕ → Option ServerUserManager → c.Context → List ReadEvent → Connection e c
  arriving o key users context stream = record {
    reader = with_user_manager (peer o.ty) o.method key users;
    context = context;
    stream = stream;
  }

-- What both ends have to have in common: the keys, a salt of the length of the method, the salt of the
-- request where a server writes, and a time of 64 bits.
pub record EndsAgree (e : Aead) (b : Primitives) (o : Opening) (key : List ℕ)
    (users : Option ServerUserManager) : Type 0 where
  pub keys : KeysAgree b o.ty o.method o.key o.identity_keys key users
  pub salted : 0 < e.salt_len
  pub nonce_len : length o.nonce ≡ e.salt_len
  pub request_salt_fits : SaltFits o.ty e.salt_len o.request_salt
  pub time_fits : o.time < 2 ^ 64

module _ {e : Aead} {c : NonceCheck} (b : Primitives) where
  arriving-Expects :
      (o : Opening) (key : List ℕ) (users : Option ServerUserManager) (context : c.Context)
      (stream : List ReadEvent) (chunks : List (List ℕ))
      → EndsAgree e b o key users
      → SaltIsNew (peer o.ty) o.nonce (arriving e c o key users context stream)
      → 0 < length chunks
      → AreShort chunks
      → header_len (arriving e c o key users context stream).reader ≤ length (first_arrival stream)
      → incoming stream ≡ (transcript e b o chunks).0
      → Expects b o.time (arriving e c o key users context stream) (concat chunks)
  unfolding with_user_manager
  arriving-Expects o key users context stream [] agree new some_chunks short whole comes =
      absurd (omega arith)
  arriving-Expects o key users context stream (p ∷ ps) agree new some_chunks short whole comes =
      let h = header_of e b o (length p) in
      let x = arriving e c o key users context stream in
      let len : length h.0 ≡ header_len x.reader =
        let part = make_header o.ty o.time o.request_salt (length p) in
        let ids = identities b o.ty o.method o.key o.nonce o.identity_keys in
        omega (
          arith,
          length-append (o.nonce ++ ids) (e.encrypt_packet (e.new o.key o.nonce) part).0,
          length-append o.nonce ids,
          e.length-encrypt_packet (e.new o.key o.nonce) part,
          length-make_header o.ty e.salt_len o.time (length p) o.request_salt
              agree.request_salt_fits,
          length-identities b o.nonce agree.keys,
          agree.nonce_len,
        ) in
      let salted : x.reader.state ≡ DecryptReadState.read_header key =
        rw (lt→ltb 0 e.salt_len agree.salted) refl in
      Expects.at_header key h.0 h.1 p ps salted len (omega arith) comes
        (λ now timely buffer es.
          let z = with_fill x buffer es in
          let (y, is, understood) =
            read_whole_header-Understood b now o.ty o.method o.key o.identity_keys key users o.nonce
              o.time (length p) o.request_salt z agree.keys
              (record { stream_type_is = refl; method_is = refl; users_are = refl }) agree.nonce_len
              agree.request_salt_fits agree.time_fits timely (omega (arith, short.0))
              (still_new b now (peer o.ty) o.nonce x z refl new) in
          (y, is, understood.cipher_is, understood.stream_is))
        refl

module _ (e : Aead) (c : NonceCheck) (b : Primitives) where
  -- What is written with `poll_write_encrypted` of AEAD 2022 is read with `poll_read_decrypted`, from a
  -- client to a server, with an identity header or without, and from a server to a client: for every
  -- text, however the stream takes the bytes, and however they arrive after the header, if both ends
  -- agree on the keys and the salts, the header arrives in one piece, all polls of the reader are within
  -- 30 seconds of the time of the first poll of the writer, a server accepts the salt, and both sides
  -- poll often enough over streams that stay alive.
  pub receive-send_aead_2022 :
      (o : Opening) (key : List ℕ) (users : Option ServerUserManager) (polls text : List ℕ)
      (out : List WriteEvent) (context : c.Context) (stream : List ReadEvent) (reads : List (ℕ × ℕ))
      → EndsAgree e b o key users
      → 0 < length text
      → WritesAreAlive out
      → length text + write_pendings out ≤ suc (length polls)
      → AreAlive stream
      → incoming stream ≡ (send e (o.time ∷ polls) text (starting e b o out)).1.sent
      → header_len (arriving e c o key users context stream).reader ≤ length (first_arrival stream)
      → SaltIsNew (peer o.ty) o.nonce (arriving e c o key users context stream)
      → Timely o.time reads
      → All (λ room. 0 < room) (rooms_of reads)
      → length text + pendings stream ≤ length (rooms_of reads)
      → receive e c b reads (arriving e c o key users context stream) ≡ text
  receive-send_aead_2022 o key users polls text out context stream reads agree some_text lives
        enough alive same whole new timely roomy long =
      let (_, chunks, some_chunks, short, sent, carries) =
        send_all_aead_2022 e b o polls text out some_text lives enough in
      let x = arriving e c o key users context stream in
      let (rest, joined, all) =
        receive-Receives b o.time reads x (concat chunks) timely
          (arriving-Expects b o key users context stream chunks agree new some_chunks short whole
            (same ∙ sent))
          alive in
      let none_left = all roomy (omega (arith, ap length carries)) in
      sym (append-nil (receive e c b reads x))
      ∙ ap (λ t. receive e c b reads x ++ t) (sym none_left)
      ∙ joined
      ∙ carries

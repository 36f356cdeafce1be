-- ===== src/Aead/Reader/Delivers.antt =====
-- What a reader that is to receive a text does in one turn of its loop.
pub mod Lengths
use Prim.Native.Nat.{min}
use mathlib.Core.List.{append_assoc}
use mobile_android_obfuscati.Common.{
  ℕ, ◌+◌, ◌-◌, ◌≤◌, ◌<◌, ◌≡◌, refl, sym, ap, ◌∙◌, arith, ◌==◌, ltb, false, List, [], ◌∷◌, ◌++◌,
  length, take, drop, get_or, length-append, append_inj, length-take, length-drop, take-append-drop,
  drop-drop, subst, dec_lt, Option, none, some,
}
use mobile_android_obfuscati.Common.{ok}
use mobile_android_obfuscati.Common.Bytes.{be_bytes, from_be_bytes}
use mobile_android_obfuscati.Aead.Async.{Poll}
use mobile_android_obfuscati.Aead.Cipher.{Aead, NonceCheck}
use mobile_android_obfuscati.Aead.Transport.{ReadEvent, incoming, AreAlive, pendings}
use mobile_android_obfuscati.Aead.Wire.{wire, concat}
use mobile_android_obfuscati.Aead.Reader.{
  max_packet_size, DecryptReadState, Connection, poll_read_exact, poll_read_salt, decrypt_length,
  poll_read_length, check_salt, salt_checked, poll_read_data, turn_wait_salt, turn_read_length,
  turn_read_data, turn_buffered_data, dispatch, turn,
}
use mobile_android_obfuscati.Aead.Reader.Steps.{
  drop_all, take_all, with_fill, Filling, poll_read_exact-Filling, decrypt_buffer-encrypted,
}
use mobile_android_obfuscati.Aead.Reader.Expects.{AreShort, Accepts, Expects, Turn}
use mobile_android_obfuscati.Aead.Reader.Delivers.Lengths.{turn_wait_salt_lem, turn_read_length_lem}

module _ {e : Aead} {c : NonceCheck} where
  check_salt-Accepts :
      (x : Connection e c) (salt : Option (List ℕ))
      → x.reader.salt ≡ salt
      → Accepts x salt
      → (context : c.Context) × (check_salt e c x ≡ (
        Poll.ready (ok tt),
        record x { reader = record x.reader { salt = none }; context = context },
      ))
  unfolding check_salt
  check_salt-Accepts x none is new = (x.context, rw is)
  check_salt-Accepts x (some salt) is new =
      let checked = c.check_nonce_replay x.context salt in
      (
        checked.1,
        rw is (
            ap
              (λ r.
                salt_checked e c (record x { reader = record x.reader { salt = none } })
                  (r, checked.1))
              new),
      )

  turn_read_data_chunk :
      (x : Connection e c) (s : e.Cipher) (p b : List ℕ) (es : List ReadEvent)
      → x.reader.cipher ≡ some s
      → b ≡ (e.encrypt_packet s p).0
      → Accepts x x.reader.salt
      → poll_read_exact e c (length p + e.tag_len) x
        ≡ (Poll.ready (ok (length p + e.tag_len)), with_fill x b es)
      → (context : c.Context) × (turn_read_data e c (length p) x ≡ (
        Poll.ready (ok none),
        record {
          reader = record x.reader {
            state = DecryptReadState.buffered_data 0;
            cipher = some (e.encrypt_packet s p).1;
            buffer = p;
            salt = none;
          };
          context = context;
          stream = es;
        },
      ))
  unfolding turn_read_data poll_read_data
  turn_read_data_chunk x s p b es has holds new eq =
      let (plain, decrypted, starts) =
        decrypt_buffer-encrypted (with_fill x b es) s p (length p + e.tag_len) has holds refl in
      let some_bytes : (length p + e.tag_len == 0) ≡ false = ground (arith, e.tag_len-pos) in
      let y = record x {
        reader = record x.reader { cipher = some (e.encrypt_packet s p).1; buffer = plain };
        stream = es;
      } in
      let (context, accepted) = check_salt-Accepts y y.reader.salt refl new in
      (context, rw (eq, some_bytes, decrypted, accepted, starts))

  turn_read_data_lem :
      (remaining : ℕ) (x : Connection e c) (text : List ℕ) (s : e.Cipher) (p : List ℕ)
      (ps : List (List ℕ))
      → x.reader.state ≡ DecryptReadState.read_data (length p)
      → x.reader.cipher ≡ some s
      → x.reader.buffer ++ incoming x.stream
        ≡ (e.encrypt_packet s p).0 ++ wire e (e.encrypt_packet s p).1 ps
      → Accepts x x.reader.salt
      → AreShort ps
      → text ≡ p ++ concat ps
      → Filling (length p + e.tag_len) x
      → Turn remaining (pendings x.stream) text (turn_read_data e c (length p) x)
  turn_read_data_lem remaining x text s p ps is has comes new short carries
        (Filling.waits b es eq same le alive less) =
      let waits : turn_read_data e c (length p) x ≡ (Poll.pending, with_fill x b es) =
        unfold turn_read_data poll_read_data in rw eq in
      rw waits (
        Turn.waits refl (Expects.at_data s p ps is has le (same ∙ comes) new short carries) alive
          less)
  turn_read_data_lem remaining x text s p ps is has comes new short carries
        (Filling.fills b es eq same le alive less) =
      let m = e.encrypt_packet s p in
      let (front, back) =
        append_inj b m.0 (omega (arith, e.length-encrypt_packet s p)) (same ∙ comes) in
      let (context, eq') = turn_read_data_chunk x s p b es has front new eq in
      rw eq' (Turn.goes refl (Expects.buffered m.1 ps 0 refl refl back tt short carries) alive less)
  turn_read_data_lem remaining x text s p ps is has comes new short carries
        (Filling.ends eq none_left) =
      let m = e.encrypt_packet s p in
      absurd (
        omega
          (arith, ap length comes, length-append m.0 (wire e m.1 ps), e.length-encrypt_packet s p))

  turn_buffered_data_lem :
      (remaining : ℕ) (x : Connection e c) (text : List ℕ) (s : e.Cipher) (ps : List (List ℕ))
      (pos : ℕ)
      → x.reader.state ≡ DecryptReadState.buffered_data pos
      → x.reader.cipher ≡ some s
      → incoming x.stream ≡ wire e s ps
      → Accepts x x.reader.salt
      → AreShort ps
      → text ≡ drop pos x.reader.buffer ++ concat ps
      → AreAlive x.stream
      → Turn remaining (pendings x.stream) text (turn_buffered_data e c remaining pos x)
  turn_buffered_data_lem remaining x text s ps pos is has comes new short carries alive =
      elim (dec_lt pos (length x.reader.buffer)) [
        | no past ↦
            let goes : turn_buffered_data e c remaining pos x ≡ (
              Poll.ready (ok none),
              record x {
                reader = record x.reader { buffer = []; state = DecryptReadState.read_length };
              },
            ) =
              unfold turn_buffered_data in ground arith in
            let carries' : text ≡ concat ps =
              carries ∙ ap (λ b. b ++ concat ps) (drop_all pos x.reader.buffer (omega arith)) in
            rw goes (
              Turn.goes refl
                (Expects.at_length s ps refl has (omega arith) comes new short carries') alive
                (omega arith))
        | yes left ↦
            let n = min (length x.reader.buffer - pos) remaining in
            let delivers : turn_buffered_data e c remaining pos x ≡ (
              Poll.ready (ok (some (take n (drop pos x.reader.buffer)))),
              record x {
                reader = record x.reader { state = DecryptReadState.buffered_data (pos + n) };
              },
            ) =
              unfold turn_buffered_data in ground arith in
            let joined : take n (drop pos x.reader.buffer)
                  ++ (drop n (drop pos x.reader.buffer) ++ concat ps)
                ≡ text =
              rw
                (
                  ← append_assoc (take n (drop pos x.reader.buffer))
                      (drop n (drop pos x.reader.buffer)) (concat ps),
                  take-append-drop n (drop pos x.reader.buffer),
                )
                (sym carries) in
            let taken = length-take n (drop pos x.reader.buffer) in
            let there = length-drop pos x.reader.buffer in
            rw delivers (
              Turn.delivers _ (drop n (drop pos x.reader.buffer) ++ concat ps) refl
                (Expects.buffered s ps (pos + n) refl has comes new short
                  (ap (λ b. b ++ concat ps) (drop-drop n pos x.reader.buffer)))
                alive (omega arith) joined (omega arith) (λ room _. omega arith))
      ]

  -- A turn waits, goes on, or delivers the next bytes of the text.
  pub turn_lem :
      (remaining : ℕ) (x : Connection e c) (text : List ℕ)
      → Expects x text
      → AreAlive x.stream
      → Turn remaining (pendings x.stream) text (turn e c remaining x)
  unfolding turn
  turn_lem remaining x text (Expects.salted key salt ps is pos len le comes new short carries)
        alive =
      subst (λ state. Turn remaining (pendings x.stream) text (dispatch e c remaining state x))
        (sym is)
        (turn_wait_salt_lem remaining x text key salt ps is pos len le comes new short carries
          (poll_read_exact-Filling e.salt_len x pos le alive))
  turn_lem remaining x text (Expects.at_length s ps is has le comes new short carries) alive =
      subst (λ state. Turn remaining (pendings x.stream) text (dispatch e c remaining state x))
        (sym is)
        (turn_read_length_lem remaining x text s ps is has comes new short carries
          (poll_read_exact-Filling (2 + e.tag_len) x (omega arith) le alive))
  turn_lem remaining x text (Expects.at_data s p ps is has le comes new short carries) alive =
      subst (λ state. Turn remaining (pendings x.stream) text (dispatch e c remaining state x))
        (sym is)
        (turn_read_data_lem remaining x text s p ps is has comes new short carries (
          poll_read_exact-Filling (length p + e.tag_len) x (omega (arith, e.tag_len-pos)) le alive))
  turn_lem remaining x text (Expects.buffered s ps pos is has comes new short carries) alive =
      subst (λ state. Turn remaining (pendings x.stream) text (dispatch e c remaining state x))
        (sym is)
        (turn_buffered_data_lem remaining x text s ps pos is has comes new short carries alive)

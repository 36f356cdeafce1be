-- ===== src/Aead2022/Reader/Delivers.antt =====
-- What a reader that is to receive a text does in one turn of its loop.
pub mod Chunks
use Prim.Native.Nat.{min}
use mathlib.Core.List.{append_assoc}
use mobile_android_obfuscati.Common.{
  true, ℕ, ◌+◌, ◌-◌, ◌%◌, ◌^◌, ◌≤◌, ◌≡◌, refl, sym, ap, ◌∙◌, arith, ◌==◌, false, List, [], ◌∷◌,
  ◌++◌, length, take, drop, length-append, append_inj, length-take, length-drop, take-append-drop,
  drop-drop, subst, dec_lt, none, some,
}
use mobile_android_obfuscati.Common.{ok}
use mobile_android_obfuscati.Common.Bytes.{be_bytes}
use mobile_android_obfuscati.Aead.Async.{Poll}
use mobile_android_obfuscati.Aead.Cipher.{Aead, NonceCheck}
use mobile_android_obfuscati.Aead.Transport.{ReadEvent, incoming, AreAlive, pendings}
use mobile_android_obfuscati.Aead.Wire.{wire, concat}
use mobile_android_obfuscati.Aead.Reader.Delivers.Lengths.{encoded_length}
use mobile_android_obfuscati.Aead.Reader.Steps.{drop_all}
use mobile_android_obfuscati.Aead2022.Connection.{DecryptReadState, Connection}
use mobile_android_obfuscati.Aead2022.Identity.{Primitives}
use mobile_android_obfuscati.Aead2022.Header.{abs_diff}
use mobile_android_obfuscati.Aead2022.Handshake.{
  header_len, resize_up, overwrite, poll_header, read_whole_header, poll_read_header,
  turn_read_header,
}
use mobile_android_obfuscati.Aead2022.Reader.{
  poll_read_exact, decrypt_length, poll_read_length, poll_read_data, turn_read_length,
  turn_read_data, turn_buffered_data, dispatch, turn,
}
use mobile_android_obfuscati.Aead2022.Reader.Steps.{
  with_fill, Filling, poll_read_exact-Filling, decrypt_buffer-encrypted,
}
use mobile_android_obfuscati.Aead2022.Reader.Heading.{Heading, poll_read-Heading}
use mobile_android_obfuscati.Aead2022.Reader.Expects.{first_arrival, ReadsHeader, Expects, Turn}
use mobile_android_obfuscati.Aead2022.Reader.Delivers.Chunks.{
  turn_read_length_lem, turn_read_data_lem,
}

module _ {e : Aead} {c : NonceCheck} (b : Primitives) (time : ℕ) where
  turn_buffered_data_lem :
      (remaining : ℕ) (x : Connection e c) (text : List ℕ) (s : e.Cipher) (ps : List (List ℕ))
      (pos : ℕ)
      → x.reader.state ≡ DecryptReadState.buffered_data pos
      → x.reader.cipher ≡ some s
      → incoming x.stream ≡ wire e s ps
      → text ≡ drop pos x.reader.buffer ++ concat ps
      → AreAlive x.stream
      → Turn b time remaining (pendings x.stream) text (turn_buffered_data e c remaining pos x)
  turn_buffered_data_lem remaining x text s ps pos is has comes carries alive =
      elim (dec_lt pos (length x.reader.buffer)) [
        | no past ↦
            let goes : turn_buffered_data e c remaining pos x ≡ (
              Poll.ready (ok none),
              record x {
                reader = record x.reader { buffer = []; state = DecryptReadState.read_length };
              },
            ) =
              unfold turn_buffered_data in ground arith in
            let carries' : text ≡ concat ps =
              carries ∙ ap (λ b. b ++ concat ps) (drop_all pos x.reader.buffer (omega arith)) in
            rw goes (
              Turn.goes refl (Expects.at_length s ps refl has (omega arith) comes carries') alive
                (omega arith))
        | yes left ↦
            let n = min (length x.reader.buffer - pos) remaining in
            let delivers : turn_buffered_data e c remaining pos x ≡ (
              Poll.ready (ok (some (take n (drop pos x.reader.buffer)))),
              record x {
                reader = record x.reader { state = DecryptReadState.buffered_data (pos + n) };
              },
            ) =
              unfold turn_buffered_data in ground arith in
            let joined : take n (drop pos x.reader.buffer)
                  ++ (drop n (drop pos x.reader.buffer) ++ concat ps)
                ≡ text =
              rw
                (
                  ← append_assoc (take n (drop pos x.reader.buffer))
                      (drop n (drop pos x.reader.buffer)) (concat ps),
                  take-append-drop n (drop pos x.reader.buffer),
                )
                (sym carries) in
            let taken = length-take n (drop pos x.reader.buffer) in
            let there = length-drop pos x.reader.buffer in
            rw delivers (
              Turn.delivers _ (drop n (drop pos x.reader.buffer) ++ concat ps) refl
                (Expects.buffered s ps (pos + n) refl has comes
                  (ap (λ b. b ++ concat ps) (drop-drop n pos x.reader.buffer)))
                alive (omega arith) joined (omega arith) (λ room _. omega arith))
      ]

  turn_read_header_lem :
      (now remaining : ℕ) (x : Connection e c) (text key h : List ℕ) (s : e.Cipher) (p : List ℕ)
      (ps : List (List ℕ))
      → x.reader.state ≡ DecryptReadState.read_header key
      → length h ≡ header_len x.reader
      → length h ≤ length (first_arrival x.stream)
      → incoming x.stream ≡ h ++ ((e.encrypt_packet s p).0 ++ wire e (e.encrypt_packet s p).1 ps)
      → ((now : ℕ) → abs_diff now time ≤ 30 → ReadsHeader b now key h (length p) s x)
      → text ≡ p ++ concat ps
      → abs_diff now time ≤ 30
      → Heading (header_len x.reader) x.stream
      → Turn b time remaining (pendings x.stream) text (turn_read_header e c b now key x)
  turn_read_header_lem now remaining x text key h s p ps is len whole comes reads carries timely
        (Heading.waits rest eq first same alive less) =
      let y = with_fill x (resize_up (header_len x.reader) x.reader.buffer) rest in
      let waits : turn_read_header e c b now key x ≡ (Poll.pending, y) =
        unfold turn_read_header poll_read_header poll_header in rw eq in
      rw waits (
        Turn.waits refl
          (Expects.at_header key h s p ps is len
            (subst (λ t. length h ≤ length t) (sym first) whole) (same ∙ comes) reads carries)
          alive less)
  turn_read_header_lem now remaining x text key h s p ps is len whole comes reads carries timely
        (Heading.arrives h' rest eq len' same alive less) =
      let m = (e.encrypt_packet s p).0 ++ wire e (e.encrypt_packet s p).1 ps in
      let (front, back) = append_inj h' h (omega arith) (same ∙ comes) in
      let buffer = overwrite h' (resize_up (header_len x.reader) x.reader.buffer) in
      let (z, read, has, left) = reads now timely buffer rest in
      let some_bytes : (length h' == 0) ≡ false = ground arith in
      let all : (length h' == header_len x.reader) ≡ true = ground arith in
      let read' =
        ap (λ t. read_whole_header e c b now key t (with_fill x buffer rest)) front ∙ read in
      let goes : turn_read_header e c b now key x ≡ (
        Poll.ready (ok none),
        record z {
          reader = record z.reader {
            buffer = [];
            state = DecryptReadState.read_data (length p);
            has_handshaked = true;
          };
        },
      ) =
        unfold turn_read_header poll_read_header poll_header in
        rw (eq, some_bytes, all, read') refl in
      rw goes (
        Turn.goes refl
          (Expects.at_data s p ps refl has (omega arith) (ap incoming left ∙ back) carries)
          (subst AreAlive (sym left) alive)
          (subst (λ t. pendings t ≤ pendings x.stream) (sym left) less))

  -- A turn waits, goes on, or delivers the next bytes of the text.
  pub turn_lem :
      (now remaining : ℕ) (x : Connection e c) (text : List ℕ)
      → abs_diff now time ≤ 30
      → Expects b time x text
      → AreAlive x.stream
      → Turn b time remaining (pendings x.stream) text (turn e c b now remaining x)
  unfolding turn
  turn_lem now remaining x text timely
        (Expects.at_header key h s p ps is len whole same reads carries) alive =
      subst
        (λ state.
          Turn b time remaining (pendings x.stream) text (dispatch e c b now remaining state x))
        (sym is)
        (turn_read_header_lem now remaining x text key h s p ps is len whole same reads carries
          timely
          (poll_read-Heading (header_len x.reader) x.stream (omega arith) (omega arith) alive))
  turn_lem now remaining x text timely (Expects.at_length s ps is has le comes carries) alive =
      subst
        (λ state.
          Turn b time remaining (pendings x.stream) text (dispatch e c b now remaining state x))
        (sym is)
        (turn_read_length_lem b time remaining x text s ps is has comes carries
          (poll_read_exact-Filling (2 + e.tag_len) x (omega arith) le alive))
  turn_lem now remaining x text timely (Expects.at_data s p ps is has le comes carries) alive =
      subst
        (λ state.
          Turn b time remaining (pendings x.stream) text (dispatch e c b now remaining state x))
        (sym is)
        (turn_read_data_lem b time remaining x text s p ps is has comes carries (
          poll_read_exact-Filling (length p + e.tag_len) x (omega (arith, e.tag_len-pos)) le alive))
  turn_lem now remaining x text timely (Expects.buffered s ps pos is has comes carries) alive =
      subst
        (λ state.
          Turn b time remaining (pendings x.stream) text (dispatch e c b now remaining state x))
        (sym is) (turn_buffered_data_lem remaining x text s ps pos is has comes carries alive)

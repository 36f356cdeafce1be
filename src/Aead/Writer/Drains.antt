-- ===== src/Aead/Writer/Drains.antt =====
-- What the loop that writes out leaves in the buffer and gives to the stream.
use Prim.Native.Nat.{min}
use mathlib.Core.List.{append_assoc, append-nil}
use mobile_android_obfuscati.Common.{
  ℕ, ◌+◌, ◌≤◌, ◌<◌, ◌≡◌, ◌≢◌, ◌⊎◌, inl, inr, refl, sym, ap, ◌∙◌, arith, ◌==◌, ltb, true, false,
  dec_lt, List, [], ◌∷◌, ◌++◌, length, take, drop, length-drop, take-append-drop, drop-drop,
  if◌then◌else◌,
}
use mobile_android_obfuscati.Common.{Result, ok, err, panic, IoErrorKind}
use mobile_android_obfuscati.Aead.Async.{Poll}
use mobile_android_obfuscati.Aead.Transport.{WriteEvent, poll_write, WritesAreAlive, write_pendings}
use mobile_android_obfuscati.Aead.Reader.Steps.{drop_all, take_all}
use mobile_android_obfuscati.Aead.Writer.{drain}

abbrev pub Outcome : Type 0
Outcome = Poll (Result IoErrorKind (Unit {0})) × ℕ × List WriteEvent × List ℕ

-- No byte is lost or sent twice; success is that nothing is left; a stream that stays alive makes the
-- writer wait, or lets it succeed.
pub record Drained (buffer w : List ℕ) (es : List WriteEvent) (r : Outcome) : Type 0 where
  pub in_range : r.1 ≤ length buffer
  pub conserves : r.3 ++ drop r.1 buffer ≡ w
  pub calm : r.0 ≢ Poll.ready panic
  pub done : r.0 ≡ Poll.ready (ok tt) → length buffer ≤ r.1
  pub progress :
      WritesAreAlive es
      → WritesAreAlive r.2
        × (((r.0 ≡ Poll.pending) × (write_pendings r.2 < write_pendings es))
            ⊎ ((r.0 ≡ Poll.ready (ok tt)) × (write_pendings r.2 ≤ write_pendings es)))

at_end :
    (buffer : List ℕ) (pos : ℕ) (es : List WriteEvent) (sent : List ℕ)
    → length buffer ≤ pos
    → drain buffer pos es sent ≡ (Poll.ready (ok tt), pos, es, sent)
unfolding drain
at_end buffer pos [] sent h = ground arith
at_end buffer pos (WriteEvent.pending ∷ es) sent h = ground arith
at_end buffer pos (WriteEvent.accepts n ∷ es) sent h = ground arith
at_end buffer pos (WriteEvent.failed k ∷ es) sent h = ground arith

at_end-Drained :
    (buffer : List ℕ) (pos : ℕ) (es : List WriteEvent) (sent : List ℕ)
    → pos ≤ length buffer
    → length buffer ≤ pos
    → Drained buffer (sent ++ drop pos buffer) es (drain buffer pos es sent)
at_end-Drained buffer pos es sent le over = rw (at_end buffer pos es sent over) (record {
  in_range = le;
  conserves = refl;
  calm = λ h. ground arith;
  done = λ _. over;
  progress = λ alive. (alive, inr (refl, omega arith));
})

drain_left :
    (buffer sent : List ℕ) (pos n : ℕ)
    → (sent ++ take n (drop pos buffer)) ++ drop (pos + n) buffer ≡ sent ++ drop pos buffer
drain_left buffer sent pos n =
    append_assoc sent (take n (drop pos buffer)) (drop (pos + n) buffer)
    ∙ ap (λ b. sent ++ (take n (drop pos buffer) ++ b)) (sym (drop-drop n pos buffer))
    ∙ ap (λ b. sent ++ b) (take-append-drop n (drop pos buffer))

pub drain-Drained :
    (buffer : List ℕ) (pos : ℕ) (es : List WriteEvent) (sent : List ℕ)
    → pos ≤ length buffer
    → Drained buffer (sent ++ drop pos buffer) es (drain buffer pos es sent)
drain-Drained buffer pos [] sent le = elim (dec_lt pos (length buffer)) [
  | no over ↦ at_end-Drained buffer pos [] sent le (omega arith)
  | yes left ↦
      let n = length (drop pos buffer) in
      let is : drain buffer pos [] sent
          ≡ (Poll.ready (ok tt), pos + n, [], sent ++ drop pos buffer) =
        unfold drain in ground arith in
      let all : length buffer ≤ pos + n = omega (arith, length-drop pos buffer) in
      rw is (record {
        in_range = omega (arith, length-drop pos buffer);
        conserves =
            ap (λ b. (sent ++ drop pos buffer) ++ b) (drop_all (pos + n) buffer all)
            ∙ append-nil (sent ++ drop pos buffer);
        calm = λ h. ground arith;
        done = λ _. all;
        progress = λ alive. (tt, inr (refl, omega arith));
      })
]
drain-Drained buffer pos (WriteEvent.pending ∷ es) sent le = elim (dec_lt pos (length buffer)) [
  | no over ↦ at_end-Drained buffer pos (WriteEvent.pending ∷ es) sent le (omega arith)
  | yes left ↦
      let is : drain buffer pos (WriteEvent.pending ∷ es) sent ≡ (Poll.pending, pos, es, sent) =
        unfold drain in ground arith in
      rw is (record {
        in_range = le;
        conserves = refl;
        calm = λ h. ground arith;
        done = λ h. ground arith;
        progress = λ alive. (alive.1, inl (refl, omega arith));
      })
]
drain-Drained buffer pos (WriteEvent.failed k ∷ es) sent le = elim (dec_lt pos (length buffer)) [
  | no over ↦ at_end-Drained buffer pos (WriteEvent.failed k ∷ es) sent le (omega arith)
  | yes left ↦
      let is : drain buffer pos (WriteEvent.failed k ∷ es) sent
          ≡ (Poll.ready (err k), pos, es, sent) =
        unfold drain in ground arith in
      rw is (record {
        in_range = le;
        conserves = refl;
        calm = λ h. ground arith;
        done = λ h. ground arith;
        progress = λ alive. absurd alive.0;
      })
]
drain-Drained buffer pos (WriteEvent.accepts m ∷ es) sent le = elim (dec_lt pos (length buffer)) [
  | no over ↦ at_end-Drained buffer pos (WriteEvent.accepts m ∷ es) sent le (omega arith)
  | yes left ↦ elim (dec_lt 0 m) [
    | no none_taken ↦
        let n0 : (min m (length (drop pos buffer)) == 0) ≡ true = ground arith in
        let is : drain buffer pos (WriteEvent.accepts m ∷ es) sent
            ≡ (Poll.ready (err IoErrorKind.unexpected_eof), pos, es, sent) =
          unfold drain in ground arith in
        rw is (record {
          in_range = le;
          conserves = refl;
          calm = λ h. ground arith;
          done = λ h. ground arith;
          progress = λ alive. absurd (omega (arith, alive.0));
        })
    | yes taken ↦
        let n = min m (length (drop pos buffer)) in
        let some_bytes : (n == 0) ≡ false = ground (arith, length-drop pos buffer) in
        let is : drain buffer pos (WriteEvent.accepts m ∷ es) sent
            ≡ drain buffer (pos + n) es (sent ++ take n (drop pos buffer)) =
          unfold drain in ground arith in
        let ih =
          drain-Drained buffer (pos + n) es (sent ++ take n (drop pos buffer))
            (omega (arith, length-drop pos buffer)) in
        rw is (record {
          in_range = ih.in_range;
          conserves = ih.conserves ∙ drain_left buffer sent pos n;
          calm = ih.calm;
          done = ih.done;
          progress = λ alive. ih.progress alive.1;
        })
  ]
]

-- What the loop does with what a poll gives.
abbrev after_poll : List ℕ → ℕ → List ℕ → Poll (Result IoErrorKind ℕ) × List WriteEvent → Outcome
after_poll buffer pos sent (Poll.pending, es) = (Poll.pending, pos, es, sent)
after_poll buffer pos sent (Poll.ready (ok n), es) =
    if n == 0
    then (Poll.ready (err IoErrorKind.unexpected_eof), pos, es, sent)
    else drain buffer (pos + n) es (sent ++ take n (drop pos buffer))
after_poll buffer pos sent (Poll.ready (err k), es) = (Poll.ready (err k), pos, es, sent)
after_poll buffer pos sent (Poll.ready panic, es) = (Poll.ready panic, pos, es, sent)

ltb-eq-true : (n m : ℕ) → n < m → ltb n m ≡ true
ltb-eq-true n m h = ground arith

positive : (n : ℕ) → 0 < n → (n == 0) ≡ false
positive n h = ground arith

-- `drain` is the loop of `poll_write` with what is left.
pub drain-poll_write :
    (buffer : List ℕ) (pos : ℕ) (es : List WriteEvent) (sent : List ℕ)
    → pos < length buffer
    → drain buffer pos es sent ≡ after_poll buffer pos sent (poll_write (drop pos buffer) es)
drain-poll_write buffer pos [] sent left =
    let n = length (drop pos buffer) in
    let there = length-drop pos buffer in
    let over = at_end buffer (pos + n) [] (sent ++ take n (drop pos buffer)) (omega arith) in
    let whole : take n (drop pos buffer) ≡ drop pos buffer =
      take_all n (drop pos buffer) (omega arith) in
    unfold drain poll_write in
    rw (ltb-eq-true pos (length buffer) left, positive n (omega arith))
      (ap (λ t. (Poll.ready (ok tt), pos + n, [], sent ++ t)) (sym whole) ∙ sym over)
drain-poll_write buffer pos (WriteEvent.pending ∷ es) sent left =
    unfold drain poll_write in rw (ltb-eq-true pos (length buffer) left) refl
drain-poll_write buffer pos (WriteEvent.failed k ∷ es) sent left =
    unfold drain poll_write in rw (ltb-eq-true pos (length buffer) left) refl
drain-poll_write buffer pos (WriteEvent.accepts m ∷ es) sent left =
    unfold drain poll_write in rw (ltb-eq-true pos (length buffer) left) refl

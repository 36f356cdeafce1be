-- ===== src/Aead/Reader/Fill.antt =====
-- What `poll_read_exact` leaves in the buffer and in the stream.
use mathlib.Core.List.{append_assoc, append-nil}
use mobile_android_obfuscati.Common.{
  ℕ, suc, ◌+◌, ◌-◌, ◌≤◌, ◌<◌, ◌≡◌, ◌⊎◌, refl, sym, ap, ◌∙◌, arith, ◌==◌, ltb, leb, true, false,
  dec_lt, List, [], ◌∷◌, ◌++◌, length, take, drop, length-append, length-take, length-drop,
  take-append-drop, if◌then◌else◌,
}
use mobile_android_obfuscati.Common.{Result, ok, err, panic, IoErrorKind}
use mobile_android_obfuscati.Aead.Async.{Poll}
use mobile_android_obfuscati.Aead.Transport.{ReadEvent, poll_read, incoming, AreAlive, pendings}
use mobile_android_obfuscati.Aead.Reader.{fill}

abbrev pub Outcome : Type 0
Outcome = Poll (Result IoErrorKind ℕ) × List ℕ × List ReadEvent

-- Over a stream that stays alive until it ends after the bytes `w`, with `p` pauses to come.
pub data FillOutcome (size : ℕ) (w : List ℕ) (p : ℕ) (r : Outcome) : Type 0 where
  waits :
      r.0 ≡ Poll.pending
      → r.1 ++ incoming r.2 ≡ w
      → length r.1 ≤ size
      → AreAlive r.2
      → pendings r.2 < p
      → FillOutcome size w p r
  fills :
      r.0 ≡ Poll.ready (ok size)
      → r.1 ++ incoming r.2 ≡ w
      → length r.1 ≡ size
      → AreAlive r.2
      → pendings r.2 ≤ p
      → FillOutcome size w p r
  ends :
      r.0
        ≡ (if length w == 0 then Poll.ready (ok 0) else Poll.ready (err IoErrorKind.unexpected_eof))
      → r.1 ≡ w
      → r.2 ≡ []
      → length w < size
      → FillOutcome size w p r

full :
    (size : ℕ) (buffer : List ℕ) (es : List ReadEvent)
    → size ≤ length buffer
    → fill size buffer es ≡ (Poll.ready (ok size), buffer, es)
unfolding fill
full size buffer [] h = ground arith
full size buffer (ReadEvent.pending ∷ es) h = ground arith
full size buffer (ReadEvent.arrived bs ∷ es) h = ground arith
full size buffer (ReadEvent.failed e ∷ es) h = ground arith

from_full :
    (size : ℕ) (buffer : List ℕ) (es : List ReadEvent)
    → length buffer ≤ size
    → AreAlive es
    → size ≤ length buffer
    → FillOutcome size (buffer ++ incoming es) (pendings es) (fill size buffer es)
from_full size buffer es le alive enough =
    rw (full size buffer es enough) (FillOutcome.fills refl refl (omega arith) alive (omega arith))

pub fill-alive :
    (size : ℕ) (buffer : List ℕ) (es : List ReadEvent)
    → length buffer ≤ size
    → AreAlive es
    → FillOutcome size (buffer ++ incoming es) (pendings es) (fill size buffer es)
fill-alive size buffer [] le alive = elim (dec_lt (length buffer) size) [
  | no enough ↦ from_full size buffer [] le alive (omega arith)
  | yes short ↦ rw (append-nil buffer) (
      FillOutcome.ends (unfold fill in ground arith) (unfold fill in ground arith)
        (unfold fill in ground arith) short)
]
fill-alive size buffer (ReadEvent.pending ∷ es) le alive = elim (dec_lt (length buffer) size) [
  | no enough ↦ from_full size buffer (ReadEvent.pending ∷ es) le alive (omega arith)
  | yes short ↦
      let e : fill size buffer (ReadEvent.pending ∷ es) ≡ (Poll.pending, buffer, es) =
        unfold fill in ground arith in
      rw e (FillOutcome.waits refl refl le alive.1 (omega arith))
]
fill-alive size buffer (ReadEvent.failed k ∷ es) le alive = absurd alive.0
fill-alive size buffer (ReadEvent.arrived bs ∷ es) le alive = elim (dec_lt (length buffer) size) [
  | no enough ↦ from_full size buffer (ReadEvent.arrived bs ∷ es) le alive (omega arith)
  | yes short ↦ elim (dec_lt (size - length buffer) (length bs)) [
    | yes some_left ↦
        let n = size - length buffer in
        let e : fill size buffer (ReadEvent.arrived bs ∷ es)
            ≡ (Poll.ready (ok size), buffer ++ take n bs, ReadEvent.arrived (drop n bs) ∷ es) =
          unfold fill in ground arith in
        rw e (
          FillOutcome.fills refl
            (rw (
              append_assoc buffer (take n bs) (drop n bs ++ incoming es),
              ← append_assoc (take n bs) (drop n bs) (incoming es),
              take-append-drop n bs,
            ))
            (omega (arith, length-append buffer (take n bs), length-take n bs))
            (omega (arith, length-drop n bs), alive.1) (omega arith))
    | no all ↦
        let e : fill size buffer (ReadEvent.arrived bs ∷ es) ≡ fill size (buffer ++ bs) es =
          unfold fill in ground arith in
        rw (e, ← append_assoc buffer bs (incoming es))
          (fill-alive size (buffer ++ bs) es (omega (arith, length-append buffer bs)) alive.1)
  ]
]

-- Whatever the stream does, no byte is made up, and success is the wanted number of bytes, or none at
-- the end of the stream.
pub fill_bounds :
    (size : ℕ) (buffer : List ℕ) (es : List ReadEvent)
    → (length (fill size buffer es).1 + length (incoming (fill size buffer es).2)
        ≤ length buffer + length (incoming es))
      × ((n : ℕ)
          → (fill size buffer es).0 ≡ Poll.ready (ok n)
          → (n ≡ 0) ⊎ ((n ≡ size) × (size ≤ length (fill size buffer es).1)))
unfolding fill
fill_bounds size buffer [] = (ground arith, λ n h. ground arith)
fill_bounds size buffer (ReadEvent.pending ∷ es) = (ground arith, λ n h. ground arith)
fill_bounds size buffer (ReadEvent.failed k ∷ es) = (ground arith, λ n h. ground arith)
fill_bounds size buffer (ReadEvent.arrived bs ∷ es) =
    let k = size - length buffer in
    let ih = fill_bounds size (buffer ++ bs) es in
    (
      ground (
        arith,
        ih.0,
        length-append buffer bs,
        length-append bs (incoming es),
        length-append buffer (take k bs),
        length-take k bs,
        length-append (drop k bs) (incoming es),
        length-drop k bs,
      ),
      λ n h. ground (arith, ih.1 n, length-append buffer (take k bs), length-take k bs),
    )

-- What the loop does with what a poll gives.
abbrev after_poll : ℕ → List ℕ → Poll (Result IoErrorKind (List ℕ)) × List ReadEvent → Outcome
after_poll size buffer (Poll.pending, es) = (Poll.pending, buffer, es)
after_poll size buffer (Poll.ready (err k), es) = (Poll.ready (err k), buffer, es)
after_poll size buffer (Poll.ready panic, es) = (Poll.ready panic, buffer, es)
after_poll size buffer (Poll.ready (ok []), es) = (
  if length buffer == 0 then Poll.ready (ok 0) else Poll.ready (err IoErrorKind.unexpected_eof),
  buffer,
  es,
)
after_poll size buffer (Poll.ready (ok (b ∷ bs)), es) = fill size (buffer ++ b ∷ bs) es

leb-eq-false : (n m : ℕ) → m < n → leb n m ≡ false
leb-eq-false n m h = ground arith

ltb-eq-true : (n m : ℕ) → n < m → ltb n m ≡ true
ltb-eq-true n m h = ground arith

after_bytes :
    (size : ℕ) (buffer t : List ℕ) (es : List ReadEvent)
    → 0 < length t
    → after_poll size buffer (Poll.ready (ok t), es) ≡ fill size (buffer ++ t) es
after_bytes size buffer [] es h = absurd (omega arith)
after_bytes size buffer (b ∷ t) es h = refl

-- `fill` is the loop of `poll_read` with the room that is left.
pub fill-poll_read :
    (size : ℕ) (buffer : List ℕ) (es : List ReadEvent)
    → length buffer < size
    → fill size buffer es ≡ after_poll size buffer (poll_read (size - length buffer) es)
unfolding fill poll_read
fill-poll_read size buffer [] short = ground arith
fill-poll_read size buffer (ReadEvent.pending ∷ es) short = ground arith
fill-poll_read size buffer (ReadEvent.failed k ∷ es) short = ground arith
fill-poll_read size buffer (ReadEvent.arrived [] ∷ es) short = ground arith
fill-poll_read size buffer (ReadEvent.arrived (b ∷ bs) ∷ es) short =
    elim (dec_lt (size - length buffer) (suc (length bs))) [
      | no all ↦ ground arith
      | yes some_left ↦
          let n = size - length buffer in
          let taken = take n (b ∷ bs) in
          let rest = ReadEvent.arrived (drop n (b ∷ bs)) ∷ es in
          let not_full : leb size (length buffer) ≡ false =
            leb-eq-false size (length buffer) short in
          let more : ltb n (suc (length bs)) ≡ true = ltb-eq-true n (suc (length bs)) some_left in
          let cut : leb (suc (length bs)) n ≡ false = leb-eq-false (suc (length bs)) n some_left in
          let left : fill size buffer (ReadEvent.arrived (b ∷ bs) ∷ es)
              ≡ (Poll.ready (ok size), buffer ++ taken, rest) =
            rw (not_full, more) refl in
          let polled : poll_read n (ReadEvent.arrived (b ∷ bs) ∷ es)
              ≡ (Poll.ready (ok taken), rest) =
            rw cut refl in
          let enough : size ≤ length (buffer ++ taken) =
            omega (arith, length-append buffer taken, length-take n (b ∷ bs)) in
          left
          ∙ sym (full size (buffer ++ taken) rest enough)
          ∙ sym (after_bytes size buffer taken rest (omega (arith, length-take n (b ∷ bs))))
          ∙ ap (after_poll size buffer) (sym polled)
    ]

-- ===== src/Aead2022/Reader/Heading.antt =====
-- The one poll that is to give the header.
use mobile_android_obfuscati.Common.{
  ℕ, ◌≤◌, ◌<◌, ◌≡◌, refl, sym, ap, ◌∙◌, arith, leb, true, false, dec_lt, List, [], ◌∷◌, ◌++◌,
  length, take, drop, length-take, length-drop, take-append-drop,
}
use mathlib.Core.List.{append_assoc}
use mobile_android_obfuscati.Common.{ok}
use mobile_android_obfuscati.Aead.Async.{Poll}
use mobile_android_obfuscati.Aead.Transport.{ReadEvent, poll_read, incoming, AreAlive, pendings}
use mobile_android_obfuscati.Aead2022.Reader.Expects.{first_arrival}

-- What the poll comes to where all of the header arrives at once.
pub data Heading (n : ℕ) (es : List ReadEvent) : Type 0 where
  waits :
      (rest : List ReadEvent)
      → poll_read n es ≡ (Poll.pending, rest)
      → first_arrival rest ≡ first_arrival es
      → incoming rest ≡ incoming es
      → AreAlive rest
      → pendings rest < pendings es
      → Heading n es
  arrives :
      (h : List ℕ) (rest : List ReadEvent)
      → poll_read n es ≡ (Poll.ready (ok h), rest)
      → length h ≡ n
      → h ++ incoming rest ≡ incoming es
      → AreAlive rest
      → pendings rest ≤ pendings es
      → Heading n es

pub poll_read-Heading :
    (n : ℕ) (es : List ReadEvent)
    → 0 < n
    → n ≤ length (first_arrival es)
    → AreAlive es
    → Heading n es
poll_read-Heading n [] some_bytes whole alive = absurd (omega arith)
poll_read-Heading n (ReadEvent.pending ∷ es) some_bytes whole alive =
    Heading.waits es (unfold poll_read in refl) refl refl alive.1 (omega arith)
poll_read-Heading n (ReadEvent.failed k ∷ es) some_bytes whole alive = absurd alive.0
poll_read-Heading n (ReadEvent.arrived bs ∷ es) some_bytes whole alive =
    elim (dec_lt n (length bs)) [
      | no all ↦
          let fits : leb (length bs) n ≡ true = ground arith in
          Heading.arrives bs es (unfold poll_read in rw fits) (omega arith) refl alive.1
            (omega arith)
      | yes more ↦
          let cut : leb (length bs) n ≡ false = ground arith in
          Heading.arrives (take n bs) (ReadEvent.arrived (drop n bs) ∷ es)
            (unfold poll_read in rw cut) (omega (arith, length-take n bs))
            (sym (append_assoc (take n bs) (drop n bs) (incoming es))
              ∙ ap (λ t. t ++ incoming es) (take-append-drop n bs))
            (omega (arith, length-drop n bs), alive.1) (omega arith)
    ]

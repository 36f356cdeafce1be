-- ===== src/Aead/Async.antt =====
-- Polled functions (`Poll<Result<A, E>>` over state that they change) as a monad: `ready!(..)?` is the
-- bind, which leaves the state as it is at a `Pending` or at an error.
use mobile_android_obfuscati.Common.{◌≡◌, refl, Result, ok, err, panic}
use mobile_android_obfuscati.Common.{arith}

pub data Poll {ℓ} (A : Type ℓ) : Type ℓ where
  pending : Poll A
  ready : A → Poll A

abbrev pub M : Type 0 → Type 0 → Type 0 → Type 0
M S E A = S → Poll (Result E A) × S

module _ {S E A B : Type 0} where
  abbrev pub resume : Poll (Result E A) × S → (A → M S E B) → Poll (Result E B) × S
  resume (pending, s) f = (pending, s)
  resume (ready (ok a), s) f = f a s
  resume (ready (err e), s) f = (ready (err e), s)
  resume (ready panic, s) f = (ready panic, s)

  infixl 5 ◌>>=◌
  abbrev pub ◌>>=◌ : M S E A → (A → M S E B) → M S E B
  ◌>>=◌ m f = λ s. resume (m s) f

abbrev pub pure : {S E A : Type 0} → A → M S E A
pure a = λ s. (ready (ok a), s)

abbrev pub fail : {S E A : Type 0} → E → M S E A
fail e = λ s. (ready (err e), s)

-- An assertion that fails, an `expect` of nothing.
abbrev pub abort : {S E A : Type 0} → M S E A
abort = λ s. (ready panic, s)

abbrev pub gets : {S E A : Type 0} → (S → A) → M S E A
gets f = λ s. (ready (ok (f s)), s)

abbrev pub modify : {S E : Type 0} → (S → S) → M S E (Unit {0})
modify f = λ s. (ready (ok tt), f s)

-- A bind that succeeds has succeeded in both its steps.
pub resume-eq-ok :
    {S E A B P : Type 0} (r : Poll (Result E A) × S) (f : A → M S E B) {b : B} {s : S}
    → ((a : A) (t : S) → r ≡ (Poll.ready (ok a), t) → f a t ≡ (Poll.ready (ok b), s) → P)
    → resume r f ≡ (Poll.ready (ok b), s)
    → P
resume-eq-ok (Poll.pending, t) f k h = absurd (ground arith)
resume-eq-ok (Poll.ready (ok a), t) f k h = k a t refl h
resume-eq-ok (Poll.ready (err e), t) f k h = absurd (ground arith)
resume-eq-ok (Poll.ready panic, t) f k h = absurd (ground arith)

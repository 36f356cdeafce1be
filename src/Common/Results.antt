-- ===== src/Common/Results.antt =====
-- Outcomes of a Rust function: a value, an error, or a panic that unwinds the task.
use mathlib.Core.Path.{◌≡◌, refl}

pub data Result {ℓ κ} (E : Type ℓ) (A : Type κ) : Type (ℓ ⊔ κ) where
  ok : A → Result E A
  err : E → Result E A
  panic : Result E A

-- `?`, and the unwinding of a panic.
infixl 5 ◌>>=◌
abbrev pub ◌>>=◌ {ℓ κ μ} :
    {E : Type ℓ} {A : Type κ} {B : Type μ} → Result E A → (A → Result E B) → Result E B
panic >>= next = panic
err failure >>= next = err failure
ok value >>= next = next value

-- The kinds of `std::io::Error` that the code creates or tells apart.
pub data IoErrorKind : Type 0 where
  unexpected_eof connection_refused other_kind : IoErrorKind

-- A bind that succeeds has a value to go on with.
pub >>=-eq-ok {ℓ κ μ} :
    {E : Type ℓ} {A : Type κ} {B : Type μ} (first : Result E A) (next : A → Result E B) {out : B}
    → (first >>= next) ≡ ok out
    → (value : A) × (first ≡ ok value) × (next value ≡ ok out)
>>=-eq-ok panic next both = cc
>>=-eq-ok (err failure) next both = cc
>>=-eq-ok (ok value) next both = (value, refl, both)

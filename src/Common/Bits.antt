-- ===== src/Common/Bits.antt =====
-- Bits of machine words: masks as remainders, and setting one bit with `|`.
use Prim.Native.Nat.{
  ℕ, zero, suc, ◌+◌, ◌*◌, ◌/◌, ◌%◌, ◌^◌, ◌≤◌, ◌<◌, min, max, digits, bitwise, bit_and, bit_or,
  bit_and-bitwise, bit_or-bitwise,
}
use mathlib.Core.Path.{◌≡◌, refl, sym, subst, ◌∙◌}
use native.Mathlib.Decide.{dec_lt}
use native.Mathlib.Omega.{arith}
use native.Mathlib.Nat.{le_refl, pow-suc}
use mobile_android_obfuscati.Common.Tests.{if◌then◌else◌, ◌==◌}

-- The digit recursion on which the operations rest takes as many steps as its first number allows, so
-- spare steps do not count, and the lowest digit can be split off.
module _ (end : ℕ → ℕ) (op : ℕ → ℕ → ℕ) where
  digits-one_more :
      (steps x y : ℕ) → x ≤ steps → digits end op (suc steps) x y ≡ digits end op steps x y
  digits-one_more steps zero y enough = rw (digits-of_zero (suc steps) y, digits-of_zero steps y)
    where
      digits-of_zero : (k y : ℕ) → digits end op k zero y ≡ end y
      digits-of_zero zero y = refl
      digits-of_zero (suc k) y = refl
  digits-one_more zero (suc x) y enough = absurd (omega arith)
  digits-one_more (suc steps) (suc x) y enough =
      let below = digits-one_more steps (suc x / 2) (y / 2) (omega arith) in rw below

  digits-exact : (steps x y : ℕ) → x ≤ steps → digits end op steps x y ≡ digits end op x x y
  digits-exact zero zero y enough = refl
  digits-exact zero (suc x) y enough = absurd (omega arith)
  digits-exact (suc steps) x y enough = elim (dec_lt steps x) [
    | yes top ↦ subst (λ k. digits end op k x y ≡ digits end op x x y) (sym (top_is top)) refl
    | no spare ↦ digits-one_more steps x y (omega arith) ∙ digits-exact steps x y (omega arith)
  ]
    where
      top_is : steps < x → suc steps ≡ x
      top_is top = omega arith

  bitwise-low_digit :
      (x y : ℕ)
      → bitwise end op (suc x) y ≡ op (suc x % 2) (y % 2) + 2 * bitwise end op (suc x / 2) (y / 2)
  bitwise-low_digit x y = omega (arith, digits-exact x (suc x / 2) (y / 2) (omega arith))

bit_or_step : (w v : ℕ) → bit_or w v ≡ max (w % 2) (v % 2) + 2 * bit_or (w / 2) (v / 2)
bit_or_step w v = simp bit_or-bitwise (by_digit w)
  where
    by_digit :
        (w : ℕ)
        → bitwise (λ d. d) max w v ≡ max (w % 2) (v % 2) + 2 * bitwise (λ d. d) max (w / 2) (v / 2)
    by_digit zero = omega arith
    by_digit (suc w) = bitwise-low_digit (λ d. d) max w v

bit_and_step : (w v : ℕ) → bit_and w v ≡ min (w % 2) (v % 2) + 2 * bit_and (w / 2) (v / 2)
bit_and_step w v = simp bit_and-bitwise (by_digit w)
  where
    by_digit :
        (w : ℕ)
        → bitwise (λ d. 0) min w v ≡ min (w % 2) (v % 2) + 2 * bitwise (λ d. 0) min (w / 2) (v / 2)
    by_digit zero = omega arith
    by_digit (suc w) = bitwise-low_digit (λ d. 0) min w v

bit_or-zero_fuel : (n a : ℕ) → a ≤ n → bit_or a 0 ≡ a
bit_or-zero_fuel n zero h = refl
bit_or-zero_fuel zero (suc a) h = absurd (omega arith)
bit_or-zero_fuel (suc n) (suc a) h =
    omega (arith, bit_or_step (suc a) 0, bit_or-zero_fuel n (suc a / 2) (omega arith))

bit_or-zero : (a : ℕ) → bit_or a 0 ≡ a
bit_or-zero a = bit_or-zero_fuel a a (le_refl _)

no_common_bits : (bound w : ℕ) → w ≤ bound → bit_and w 0 ≡ 0
no_common_bits zero zero below = refl
no_common_bits zero (suc w) below = absurd (omega arith)
no_common_bits (suc bound) w below =
    let halves = no_common_bits bound (w / 2) (omega arith) in omega (arith, bit_and_step w 0)

-- The mask of the low 3 bits is a remainder, and with it those of the low 6 and of the low 7 bits.
bit_and-mask_three : (w : ℕ) → bit_and w 7 ≡ w % 8
bit_and-mask_three w =
    let top = w / 2 / 2 / 2 in
    let above = no_common_bits top top (le_refl top) in
    omega (arith, bit_and_step (w / 2 / 2) 1, bit_and_step (w / 2) 3, bit_and_step w 7)

pub bit_and-mask_six : (a : ℕ) → bit_and a 63 ≡ a % 64
bit_and-mask_six a = omega (
  arith,
  bit_and_step a 63,
  bit_and_step (a / 2) 31,
  bit_and_step (a / 2 / 2) 15,
  bit_and-mask_three (a / 2 / 2 / 2),
)

pub bit_and-mask_seven : (a : ℕ) → bit_and a 127 ≡ a % 128
bit_and-mask_seven a = omega (arith, bit_and_step a 127, bit_and-mask_six (a / 2))

-- Bit `c` of a word.
abbrev pub bit : ℕ → ℕ → ℕ
bit w zero = w % 2
bit w (suc c) = bit (w / 2) c

bit_or-one_half : (w : ℕ) → bit_or w 1 / 2 ≡ w / 2
bit_or-one_half w = omega (arith, bit_or_step w 1, bit_or-zero (w / 2))

bit_or_half : (w b : ℕ) → bit_or w (2 ^ suc b) / 2 ≡ bit_or (w / 2) (2 ^ b)
bit_or_half w b = rw bit_or_step (rw (half b) (omega (arith, pow-suc 2 b)))
  where
    half : (b : ℕ) → 2 ^ suc b / 2 ≡ 2 ^ b
    half b = omega (arith, pow-suc 2 b)

bit_or_low : (w b : ℕ) → bit_or w (2 ^ suc b) % 2 ≡ w % 2
bit_or_low w b = rw bit_or_step (omega (arith, pow-suc 2 b))

-- `w | (1 << b)` sets bit `b` and leaves the others.
pub bit-set : (w b c : ℕ) → bit (bit_or w (2 ^ b)) c ≡ (if b == c then 1 else bit w c)
bit-set w zero zero = omega (arith, bit_or_step w 1)
bit-set w zero (suc c) = rw bit_or-one_half (ground arith)
bit-set w (suc b) zero = rw bit_or_low (ground arith)
bit-set w (suc b) (suc c) = rw bit_or_half (ground (arith, bit-set (w / 2) b c))

-- Setting a bit that is set changes nothing.
pub bit_or-absorb : (w b : ℕ) → bit w b ≡ 1 → bit_or w (2 ^ b) ≡ w
bit_or-absorb w zero h = omega (arith, bit_or_step w 1, bit_or-zero (w / 2))
bit_or-absorb w (suc b) h =
    omega (arith, bit_or_half w b, bit_or_low w b, bit_or-absorb (w / 2) b h)

pub bit-zero : (c : ℕ) → bit 0 c ≡ 0
bit-zero zero = refl
bit-zero (suc c) = bit-zero c

pub bit-le-one : (w c : ℕ) → bit w c ≤ 1
bit-le-one w zero = omega arith
bit-le-one w (suc c) = bit-le-one (w / 2) c

-- ===== src/Common/Utf8.antt =====
-- `String::from_utf8`: which byte strings are UTF-8 (the table of well-formed sequences in the
-- Unicode standard). A `String` is the list of its bytes.
use Prim.Native.Nat.{ℕ, zero, suc}
use mathlib.Core.Bool.{Bool, true, false, ◌&&◌}
use mathlib.Core.List.{List, [], ◌∷◌}
use mathlib.Core.Option.{Option, none, some}
use mathlib.Core.Path.{◌≡◌, refl}
use native.Mathlib.Omega.{arith}
use mobile_android_obfuscati.Common.Strings.{is_ascii}
use mobile_android_obfuscati.Common.Tests.{leb, ltb, ◌==◌, if◌then◌else◌}

abbrev in_range : ℕ → ℕ → ℕ → Bool
in_range lo hi b = leb lo b && leb b hi

-- How many bytes follow a first byte, and the range of the next one.
lead_byte : ℕ → Option (ℕ × ℕ × ℕ)
lead_byte b =
    if leb b 0x7f
    then some (0, 0, 0)
    else if in_range 0xc2 0xdf b
    then some (1, 0x80, 0xbf)
    else if b == 0xe0
    then some (2, 0xa0, 0xbf)
    else if b == 0xed
    then some (2, 0x80, 0x9f)
    else if in_range 0xe1 0xef b
    then some (2, 0x80, 0xbf)
    else if b == 0xf0
    then some (3, 0x90, 0xbf)
    else if in_range 0xf1 0xf3 b
    then some (3, 0x80, 0xbf)
    else if b == 0xf4
    then some (3, 0x80, 0x8f)
    else none

-- `n` bytes of a sequence are still to come, the next between `lo` and `hi`.
utf8_rest : ℕ → ℕ → ℕ → List ℕ → Bool
utf8_rest zero lo hi [] = true
utf8_rest (suc n) lo hi [] = false
utf8_rest zero lo hi (b ∷ r) = elim (lead_byte b) [
  | none ↦ false
  | some (n, lo', hi') ↦ utf8_rest n lo' hi' r
]
utf8_rest (suc n) lo hi (b ∷ r) = let rest = utf8_rest n 0x80 0xbf r in in_range lo hi b && rest

unfoldable pub is_utf8 : List ℕ → Bool
unfolding utf8_rest lead_byte
is_utf8 bs = utf8_rest 0 0 0 bs

lead_byte_ascii : (b : ℕ) → ltb b 128 ≡ true → lead_byte b ≡ some (0, 0, 0)
unfolding lead_byte
lead_byte_ascii b ascii = ground arith

ascii-utf8_rest : (bs : List ℕ) → is_ascii bs ≡ true → utf8_rest 0 0 0 bs ≡ true
unfolding utf8_rest is_ascii
ascii-utf8_rest [] ascii = refl
ascii-utf8_rest (b ∷ bs) ascii =
    let single = lead_byte_ascii b (ground arith) in
    rw (utf8_rest, single) (ascii-utf8_rest bs (ground arith))

-- ASCII is UTF-8.
pub ascii-is_utf8 : (bs : List ℕ) → is_ascii bs ≡ true → is_utf8 bs ≡ true
unfolding is_utf8
ascii-is_utf8 bs ascii = ascii-utf8_rest bs ascii

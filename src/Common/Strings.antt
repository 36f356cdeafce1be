-- ===== src/Common/Strings.antt =====
-- Strings as the list of their bytes: equality, ASCII case, and splitting at a byte.
use mobile_android_obfuscati.Common.Tests.{◌==◌, leb, ltb, if◌then◌else◌, eq→==}
use Prim.Native.Nat.{ℕ, zero, suc, ◌+◌}
use mathlib.Core.Path.{◌≡◌, refl}
use mathlib.Core.Bool.{Bool, true, false, ◌&&◌, ◌||◌}
use mathlib.Core.List.{List, [], ◌∷◌, reverse}
use mathlib.Core.Option.{Option, none, some}
use mobile_android_obfuscati.Common.Lists.{length, get_or, drop}
use Prim.Native.String.{String}
use Prim.Native.Char.{code}
use native.Mathlib.Omega.{arith}

-- The bytes of a literal.
abbrev pub bytes : String → List ℕ
bytes String.[] = []
bytes (String.◌∷◌ c s) = code c ∷ bytes s

-- `==` on `String`.
unfoldable pub str_eq : List ℕ → List ℕ → Bool
str_eq [] [] = true
str_eq [] (b ∷ t) = false
str_eq (a ∷ s) [] = false
str_eq (a ∷ s) (b ∷ t) = a == b && str_eq s t

pub str_eq→eq : (s t : List ℕ) → str_eq s t ≡ true → s ≡ t
unfolding str_eq
str_eq→eq [] [] h = refl
str_eq→eq [] (b ∷ t) h = cc
str_eq→eq (a ∷ s) [] h = cc
str_eq→eq (a ∷ s) (b ∷ t) h = ground (arith, str_eq→eq s t)

pub str_eq_refl : (s : List ℕ) → str_eq s s ≡ true
unfolding str_eq
str_eq_refl [] = refl
str_eq_refl (a ∷ s) = rw (eq→== a a refl) (str_eq_refl s)

-- `to_ascii_lowercase`
abbrev lower : ℕ → ℕ
lower b = if leb b'A' b && leb b b'Z' then b + 32 else b

unfoldable pub to_ascii_lowercase : List ℕ → List ℕ
to_ascii_lowercase [] = []
to_ascii_lowercase (b ∷ s) = lower b ∷ to_ascii_lowercase s

-- `is_ascii`
unfoldable pub is_ascii : List ℕ → Bool
is_ascii [] = true
is_ascii (b ∷ s) = ltb b 128 && is_ascii s

-- The parts between the separators, the first part first and never none at all.
push_front : ℕ → List (List ℕ) → List (List ℕ)
push_front b [] = (b ∷ []) ∷ []
push_front b (part ∷ parts) = (b ∷ part) ∷ parts

unfoldable pub split : ℕ → List ℕ → List (List ℕ)
unfolding push_front
split sep [] = [] ∷ []
split sep (b ∷ s) = let parts = split sep s in if b == sep then [] ∷ parts else push_front b parts

-- `trim_end_matches(c)`
unfoldable pub trim_end_matches : ℕ → List ℕ → List ℕ
trim_end_matches c [] = []
trim_end_matches c (b ∷ s) =
    let rest = trim_end_matches c s in
    elim rest [ [] ↦ if b == c then [] else b ∷ [] | x ∷ xs ↦ b ∷ x ∷ xs ]

-- `strip_prefix`
unfoldable pub strip_prefix : List ℕ → List ℕ → Option (List ℕ)
strip_prefix [] s = some s
strip_prefix (a ∷ p) [] = none
strip_prefix (a ∷ p) (b ∷ s) = if a == b then strip_prefix p s else none

-- How many bytes the white space takes that has `a` for its first byte and `b`, `c` behind it, or 0:
-- the characters of Unicode's White_Space in UTF-8.
space_len : ℕ → ℕ → ℕ → ℕ
space_len a b c =
    if (leb 9 a && leb a 13) || a == 32
    then 1
    else if a == 0xc2 && (b == 0x85 || b == 0xa0)
    then 2
    else if a == 0xe1 && b == 0x9a && c == 0x80
    then 3
    else if a == 0xe2
        && b == 0x80
        && ((leb 0x80 c && leb c 0x8a) || c == 0xa8 || c == 0xa9 || c == 0xaf)
    then 3
    else if a == 0xe2 && b == 0x81 && c == 0x9f
    then 3
    else if a == 0xe3 && b == 0x80 && c == 0x80
    then 3
    else 0

-- The same for the last character of a string, from its bytes backwards.
last_space_len : ℕ → ℕ → ℕ → ℕ
last_space_len z y x =
    if space_len z 0 0 == 1
    then 1
    else if space_len y z 0 == 2
    then 2
    else if space_len x y z == 3
    then 3
    else 0

drop_spaces : (ℕ → ℕ → ℕ → ℕ) → ℕ → List ℕ → List ℕ
drop_spaces len zero s = s
drop_spaces len (suc fuel) s = elim (len (get_or s 0 0) (get_or s 1 0) (get_or s 2 0)) [
  | zero ↦ s
  | suc n ↦ drop_spaces len fuel (drop (suc n) s)
]

-- `trim`
unfoldable pub trim : List ℕ → List ℕ
unfolding space_len last_space_len drop_spaces
trim s =
    let front = drop_spaces space_len (length s) s in
    reverse (drop_spaces last_space_len (length front) (reverse front))

-- `replace` of the pair of bytes `a`, `b` by `b`.
unfoldable pub replace_pair : ℕ → ℕ → List ℕ → List ℕ
replace_pair a b [] = []
replace_pair a b (x ∷ []) = x ∷ []
replace_pair a b (x ∷ y ∷ s) =
    let kept = x ∷ replace_pair a b (y ∷ s) in
    let replaced = b ∷ replace_pair a b s in if x == a && y == b then replaced else kept

-- ===== src/Common/Bytes.antt =====
-- Bytes on the wire. A reader (`AsyncRead`, `io::Cursor`) is the list of the bytes that it still
-- delivers before the end of the stream; a buffer (`BufMut`) is the list of the bytes appended.
use Prim.Native.Nat.{ℕ, zero, suc, ◌+◌, ◌*◌, ◌/◌, ◌%◌, ◌^◌, ◌<◌}
use mathlib.Core.Path.{◌≡◌, refl, ap, ◌∙◌}
use mathlib.Core.List.{List, [], ◌∷◌, ◌++◌}
use native.Mathlib.Omega.{arith}
use native.Mathlib.Nat.{pow-suc}
use mobile_android_obfuscati.Common.Lists.{length}
use mobile_android_obfuscati.Common.Results.{Result, ok, err, panic, ◌>>=◌}

abbrev pub IsByte : ℕ → Type 0
IsByte b = b < 256

abbrev pub IsU16 : ℕ → Type 0
IsU16 n = n < 65536

-- `put_u16`, and `u16::from_be_bytes`.
abbrev pub be_bytes : ℕ → List ℕ
be_bytes n = (n / 256) ∷ (n % 256) ∷ []

abbrev pub be_words : List ℕ → List ℕ
be_words [] = []
be_words (w ∷ ws) = be_bytes w ++ be_words ws

abbrev pub from_be_bytes : ℕ → ℕ → ℕ
from_be_bytes a b = a * 256 + b

-- `read_exact` into a buffer of `n` bytes. The first argument is what `?` makes of `UnexpectedEof`.
unfoldable pub read_exact {ℓ} : {E : Type ℓ} → E → ℕ → List ℕ → Result E (List ℕ × List ℕ)
read_exact eof zero r = ok ([], r)
read_exact eof (suc n) [] = err eof
read_exact eof (suc n) (b ∷ r) = do (bs, rest) ← read_exact eof n r; ok (b ∷ bs, rest)

-- `read_until(0)`: the bytes up to and with the first 0, or all of them if there is none.
unfoldable pub read_until_nul : List ℕ → List ℕ × List ℕ
read_until_nul [] = ([], [])
read_until_nul (zero ∷ r) = (0 ∷ [], r)
read_until_nul (suc b ∷ r) = let (bs, rest) = read_until_nul r in (suc b ∷ bs, rest)

-- `get_u8` off a cursor; an empty cursor panics.
unfoldable pub get_u8 {ℓ} : {E : Type ℓ} → List ℕ → Result E (ℕ × List ℕ)
get_u8 [] = panic
get_u8 (b ∷ r) = ok (b, r)

-- A big-endian number of `n` bytes off a cursor, behind the accumulator; a cursor with fewer bytes
-- panics.
unfoldable pub get_uint {ℓ} : {E : Type ℓ} → ℕ → ℕ → List ℕ → Result E (ℕ × List ℕ)
get_uint zero acc r = ok (acc, r)
get_uint (suc n) acc [] = panic
get_uint (suc n) acc (b ∷ r) = get_uint n (acc * 256 + b) r

module _ {ℓ} {E : Type ℓ} where
  -- A reader that starts with the wanted bytes delivers them and keeps what follows.
  pub read_exact-append :
      (eof : E) (bs rest : List ℕ) → read_exact eof (length bs) (bs ++ rest) ≡ ok (bs, rest)
  unfolding read_exact
  read_exact-append eof [] rest = refl
  read_exact-append eof (b ∷ bs) rest = rw (read_exact-append eof bs rest)

  pub read_exact_of :
      (eof : E) (n : ℕ) (bs rest : List ℕ)
      → length bs ≡ n
      → read_exact eof n (bs ++ rest) ≡ ok (bs, rest)
  read_exact_of eof n bs rest h = rw (← h) (read_exact-append eof bs rest)

  pub read_exact_short :
      (eof : E) (n : ℕ) (r : List ℕ) → length r < n → read_exact eof n r ≡ err eof
  unfolding read_exact
  read_exact_short eof zero r h = elim h [ ]
  read_exact_short eof (suc n) [] h = refl
  read_exact_short eof (suc n) (b ∷ r) h = rw (read_exact_short eof n r (omega arith))

  -- What a reader delivers and what it keeps make up its input.
  pub read_exact-eq_ok :
      (eof : E) (n : ℕ) (r bs rest : List ℕ)
      → read_exact eof n r ≡ ok (bs, rest)
      → (r ≡ bs ++ rest) × (length bs ≡ n)
  unfolding read_exact
  read_exact-eq_ok eof zero r bs rest h = ground arith
  read_exact-eq_ok eof (suc n) [] bs rest h = cc
  read_exact-eq_ok eof (suc n) (b ∷ r) bs rest h =
      go (read_exact eof n r) (read_exact-eq_ok eof n r) h
    where
      go :
          (m : Result E (List ℕ × List ℕ))
          → ((bs' rest' : List ℕ) → m ≡ ok (bs', rest') → (r ≡ bs' ++ rest') × (length bs' ≡ n))
          → ◌>>=◌ {B = List ℕ × List ℕ} m (λ (bs', rest'). ok (b ∷ bs', rest')) ≡ ok (bs, rest)
          → (b ∷ r ≡ bs ++ rest) × (length bs ≡ suc n)
      go (ok (bs', rest')) ih e = let (p, q) = ih bs' rest' refl in ground arith
      go (err e') ih e = cc
      go panic ih e = cc

-- `put_u64` and the like: `n` in so many big-endian bytes, in front of `r`.
unfoldable pub put_uint : ℕ → ℕ → List ℕ → List ℕ
put_uint zero n r = r
put_uint (suc k) n r = put_uint k (n / 256) ((n % 256) ∷ r)

pub length-put_uint : (k n : ℕ) (r : List ℕ) → length (put_uint k n r) ≡ k + length r
unfolding put_uint
length-put_uint zero n r = omega arith
length-put_uint (suc k) n r = omega (arith, length-put_uint k (n / 256) ((n % 256) ∷ r))

pub put_uint-append : (k n : ℕ) (r s : List ℕ) → put_uint k n r ++ s ≡ put_uint k n (r ++ s)
unfolding put_uint
put_uint-append zero n r s = refl
put_uint-append (suc k) n r s = put_uint-append k (n / 256) ((n % 256) ∷ r) s

get_uint-put_uint_more {ℓ} :
    {E : Type ℓ} (k j n : ℕ) (r : List ℕ)
    → n < 256 ^ k
    → get_uint {E = E} (k + j) 0 (put_uint k n r) ≡ get_uint j n r
unfolding get_uint put_uint
get_uint-put_uint_more zero j n r h =
    let is_zero : n ≡ 0 = omega arith in
    let zero_more : 0 + j ≡ j = omega arith in rw (is_zero, zero_more)
get_uint-put_uint_more {E = E} (suc k) j n r h =
    let digits = put_uint k (n / 256) ((n % 256) ∷ r) in
    let moved : suc k + j ≡ k + suc j = omega arith in
    let whole : n / 256 * 256 + n % 256 ≡ n = omega arith in
    ap (λ t. get_uint {E = E} t 0 digits) moved
    ∙ get_uint-put_uint_more k (suc j) (n / 256) ((n % 256) ∷ r) (omega (arith, pow-suc 256 k))
    ∙ ap (λ t. get_uint {E = E} j t r) whole

-- What is put is what is got, if it fits.
pub get_uint-put_uint {ℓ} :
    {E : Type ℓ} (k n : ℕ) (r : List ℕ)
    → n < 256 ^ k
    → get_uint {E = E} k 0 (put_uint k n r) ≡ ok (n, r)
unfolding get_uint
get_uint-put_uint {E = E} k n r h =
    let whole : k + 0 ≡ k = omega arith in rw whole at (get_uint-put_uint_more {E = E} k 0 n r h)

-- `put_u16` of a number that fits, and `get_u16`.
pub get_uint-be_bytes {ℓ} :
    {E : Type ℓ} (n : ℕ) (r : List ℕ)
    → n < 65536
    → get_uint {E = E} 2 0 (be_bytes (n % 65536) ++ r) ≡ ok (n, r)
unfolding get_uint
get_uint-be_bytes n r h =
    let whole : (0 * 256 + n % 65536 / 256) * 256 + n % 65536 % 256 ≡ n = omega arith in
    ap (λ (t : ℕ). ok (t, r)) whole

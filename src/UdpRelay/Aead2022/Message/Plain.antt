-- ===== src/UdpRelay/Aead2022/Message/Plain.antt =====
-- Front parts of a packet, and numbers that are read off it.
use mobile_android_obfuscati.Common.{
  ℕ, zero, suc, ◌+◌, ◌*◌, ◌≤◌, ◌≡◌, refl, ap, ◌∙◌, arith, List, [], ◌∷◌, ◌++◌, length, take,
}
use mobile_android_obfuscati.Common.{ok}
use mobile_android_obfuscati.Common.Bytes.{get_uint}
use mobile_android_obfuscati.UdpRelay.Aead2022.{ProtocolError}

pub take_behind :
    (front p : List ℕ) (n k : ℕ) → n ≡ length front + k → take n (front ++ p) ≡ front ++ take k p
take_behind [] p n k h = ap (λ t. take t p) (let same : n ≡ k = omega arith in same)
take_behind (x ∷ front) p n k h =
    let same : n ≡ suc (length front + k) = omega arith in
    ap (λ t. take t (x ∷ (front ++ p))) same
    ∙ ap (λ t. x ∷ t) (take_behind front p (length front + k) k refl)

-- What is left of a cursor that has enough bytes.
pub get_uint_left :
    (n acc : ℕ) (r : List ℕ)
    → n ≤ length r
    → (v : ℕ) × (rest : List ℕ) × (get_uint {E = ProtocolError} n acc r ≡ ok (v, rest))
      × (length r ≡ n + length rest)
unfolding get_uint
get_uint_left zero acc r h = (acc, r, refl, omega arith)
get_uint_left (suc n) acc [] h = absurd (omega arith)
get_uint_left (suc n) acc (x ∷ r) h =
    let (v, rest, got, len) = get_uint_left n (acc * 256 + x) r (omega arith) in
    (v, rest, got, omega arith)

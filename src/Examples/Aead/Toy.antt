-- ===== src/Examples/Aead/Toy.antt =====
-- A cipher that counts packets and appends the count as the tag, and a check that accepts all nonces.
use mobile_android_obfuscati.Common.{
  ℕ, suc, ◌-◌, ◌≡◌, refl, arith, ◌==◌, Bool, true, List, [], ◌∷◌, ◌++◌, length, get_or,
  length-append, take-length_append, ok,
}
use mobile_android_obfuscati.Aead.Cipher.{Aead, NonceCheck}

abbrev pub is_valid : ℕ → List ℕ → Bool
is_valid count m = get_or m (length m - 1) 0 == count

get_or_last : (p : List ℕ) (t : ℕ) → get_or (p ++ t ∷ []) (length p) 0 ≡ t
get_or_last [] t = refl
get_or_last (x ∷ p) t = get_or_last p t

pub is_valid_tag : (count : ℕ) (p : List ℕ) → is_valid count (p ++ count ∷ []) ≡ true
is_valid_tag count p =
    let at : length (p ++ count ∷ []) - 1 ≡ length p =
      omega (arith, length-append p (count ∷ [])) in
    rw (at, get_or_last p count) (ground arith)

abbrev pub toy : Aead
toy = record {
  Cipher = ℕ;
  salt_len = 2;
  tag_len = 1;
  new = λ key salt. get_or key 0 0;
  encrypt_packet = λ count p. (p ++ count ∷ [], suc count);
  decrypt_packet = λ count m. (is_valid count m, m, suc count);
  tag_len-pos = omega arith;
  length-encrypt_packet = λ count p. length-append p (count ∷ []);
  length-decrypt_packet = λ count m. refl;
  decrypt-encrypt = λ count p. (is_valid_tag count p, take-length_append p (count ∷ []), refl);
}

abbrev pub accepting : NonceCheck
accepting = record { Context = Unit {0}; check_nonce_replay = λ x nonce. (ok tt, x) }

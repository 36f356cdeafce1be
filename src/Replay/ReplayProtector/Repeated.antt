-- ===== src/Replay/ReplayProtector/Repeated.antt =====
-- A nonce that is checked twice.
use mobile_android_obfuscati.Common.{
  ℕ, ◌+◌, ◌<◌, ◌≡◌, refl, Bool-cases, inl, inr, subst, sym, true, List, ◌∷◌,
}
use mobile_android_obfuscati.Replay.PingPongBloom.{Bloom}
use mobile_android_obfuscati.Replay.PingPongBloom.Remembered.{IsWellFormed, check_and_set-again}
use mobile_android_obfuscati.Replay.ReplayProtector.{
  LruCache, ReplayProtector, CipherKind, check_nonce_and_set,
}

module _ {e : Bloom} {l : LruCache} where
  -- In a protector with well-formed filters, a nonce that is not empty is reported when it is checked
  -- again at once, with the same method and before the expiry duration of the set of nonces is over,
  -- whatever the method and the first outcome are.
  pub check_nonce_and_set-repeated :
      (p : ReplayProtector e l) (now later : ℕ) (method : CipherKind) (b : ℕ) (nonce : List ℕ)
      → IsWellFormed p.nonce_ppbloom
      → later < now + l.expiry p.nonce_set
      → (check_nonce_and_set
          (check_nonce_and_set p now method (b ∷ nonce)).1
          later
          method
          (b ∷ nonce)).0
        ≡ true
  unfolding check_nonce_and_set
  check_nonce_and_set-repeated p now later CipherKind.stream b nonce w soon =
      check_and_set-again p.nonce_ppbloom (b ∷ nonce) w
  check_nonce_and_set-repeated p now later CipherKind.aead b nonce w soon =
      check_and_set-again p.nonce_ppbloom (b ∷ nonce) w
  check_nonce_and_set-repeated p now later CipherKind.aead_2022 b nonce w soon =
      let set = (l.get p.nonce_set now (b ∷ nonce)).1 in
      elim (Bool-cases (l.get p.nonce_set now (b ∷ nonce)).0) [
        | inl found ↦
            rw found (rw (l.get-renewed p.nonce_set now later (b ∷ nonce) found soon) refl)
        | inr new_nonce ↦ rw new_nonce (
            rw
              (l.get-insert set now later (b ∷ nonce) (
                subst (λ t. later < now + t) (sym (l.expiry-get p.nonce_set now (b ∷ nonce))) soon))
              refl)
      ]

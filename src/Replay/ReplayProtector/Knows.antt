-- ===== src/Replay/ReplayProtector/Knows.antt =====
-- How long a protector knows a nonce.
use mobile_android_obfuscati.Common.{
  ℕ, suc, ◌+◌, ◌≤◌, ◌<◌, ◌≡◌, ◌≢◌, refl, arith, Bool-cases, inl, inr, subst, sym, true, false, List,
  [], ◌∷◌,
}
use mobile_android_obfuscati.Replay.PingPongBloom.{Bloom, check_and_set}
use mobile_android_obfuscati.Replay.PingPongBloom.Remembered.{
  IsWellFormed, Remembers, fewer-Remembers, Remembers-found, check_and_set-IsWellFormed,
  check_and_set-Remembers, accepted-Remembers,
}
use mobile_android_obfuscati.Replay.ReplayProtector.{
  LruCache, ReplayProtector, CipherKind, check_nonce_and_set,
}

module _ {e : Bloom} {l : LruCache} where
  -- The nonce is found at the time `later`, and the filters keep it over so many other checks.
  abbrev pub Knows : CipherKind → ℕ → List ℕ → ℕ → ReplayProtector e l → Type 0
  Knows CipherKind.stream later nonce n p =
      IsWellFormed p.nonce_ppbloom × Remembers p.nonce_ppbloom nonce n
  Knows CipherKind.aead later nonce n p =
      IsWellFormed p.nonce_ppbloom × Remembers p.nonce_ppbloom nonce n
  Knows CipherKind.aead_2022 later nonce n p = (l.get p.nonce_set later nonce).0 ≡ true

  pub Knows-found :
      (method : CipherKind) (later b n : ℕ) (nonce : List ℕ) (p : ReplayProtector e l)
      → Knows method later (b ∷ nonce) n p
      → (check_nonce_and_set p later method (b ∷ nonce)).0 ≡ true
  unfolding check_nonce_and_set
  Knows-found CipherKind.stream later b n nonce p (w, h) =
      Remembers-found p.nonce_ppbloom (b ∷ nonce) n w h
  Knows-found CipherKind.aead later b n nonce p (w, h) =
      Remembers-found p.nonce_ppbloom (b ∷ nonce) n w h
  Knows-found CipherKind.aead_2022 later b n nonce p h = rw h refl

  -- The check of another nonce before that time.
  pub check_nonce_and_set-Knows :
      (method : CipherKind) (now later n : ℕ) (nonce other : List ℕ) (p : ReplayProtector e l)
      → now ≤ later
      → other ≢ nonce
      → Knows method later nonce (suc n) p
      → Knows method later nonce n (check_nonce_and_set p now method other).1
  unfolding check_nonce_and_set
  check_nonce_and_set-Knows CipherKind.stream now later n nonce [] p early differs (w, h) =
      (w, fewer-Remembers p.nonce_ppbloom nonce n (suc n) (omega arith) h)
  check_nonce_and_set-Knows CipherKind.aead now later n nonce [] p early differs (w, h) =
      (w, fewer-Remembers p.nonce_ppbloom nonce n (suc n) (omega arith) h)
  check_nonce_and_set-Knows CipherKind.aead_2022 now later n nonce [] p early differs h = h
  check_nonce_and_set-Knows CipherKind.stream now later n nonce (c ∷ other) p early differs (w, h) =
      (
        check_and_set-IsWellFormed p.nonce_ppbloom (c ∷ other) w,
        check_and_set-Remembers p.nonce_ppbloom nonce (c ∷ other) n w h,
      )
  check_nonce_and_set-Knows CipherKind.aead now later n nonce (c ∷ other) p early differs (w, h) = (
    check_and_set-IsWellFormed p.nonce_ppbloom (c ∷ other) w,
    check_and_set-Remembers p.nonce_ppbloom nonce (c ∷ other) n w h,
  )
  check_nonce_and_set-Knows CipherKind.aead_2022 now later n nonce (c ∷ other) p early differs h =
      let kept = l.get-kept p.nonce_set now later nonce (c ∷ other) early differs h in
      elim (Bool-cases (l.get p.nonce_set now (c ∷ other)).0) [
        | inl found ↦ rw found kept
        | inr new_nonce ↦ rw new_nonce (
            l.insert-kept (l.get p.nonce_set now (c ∷ other)).1 now later nonce (c ∷ other) early
              differs kept)
      ]

  -- A nonce that was new.
  pub accepted-Knows :
      (method : CipherKind) (now later b n : ℕ) (nonce : List ℕ) (p : ReplayProtector e l)
      → IsWellFormed p.nonce_ppbloom
      → later < now + l.expiry p.nonce_set
      → n ≤ p.nonce_ppbloom.item_count
      → (check_nonce_and_set p now method (b ∷ nonce)).0 ≡ false
      → Knows method later (b ∷ nonce) n (check_nonce_and_set p now method (b ∷ nonce)).1
  unfolding check_nonce_and_set
  accepted-Knows CipherKind.stream now later b n nonce p w soon few accepted = (
    check_and_set-IsWellFormed p.nonce_ppbloom (b ∷ nonce) w,
    fewer-Remembers (check_and_set p.nonce_ppbloom (b ∷ nonce)).1 (b ∷ nonce) n
        p.nonce_ppbloom.item_count few (accepted-Remembers p.nonce_ppbloom (b ∷ nonce) w accepted),
  )
  accepted-Knows CipherKind.aead now later b n nonce p w soon few accepted = (
    check_and_set-IsWellFormed p.nonce_ppbloom (b ∷ nonce) w,
    fewer-Remembers (check_and_set p.nonce_ppbloom (b ∷ nonce)).1 (b ∷ nonce) n
        p.nonce_ppbloom.item_count few (accepted-Remembers p.nonce_ppbloom (b ∷ nonce) w accepted),
  )
  accepted-Knows CipherKind.aead_2022 now later b n nonce p w soon few accepted =
      elim (Bool-cases (l.get p.nonce_set now (b ∷ nonce)).0) [
        | inl found ↦ absurd (ground arith)
        | inr new_nonce ↦ rw new_nonce (
            l.get-insert (l.get p.nonce_set now (b ∷ nonce)).1 now later (b ∷ nonce)
              (subst (λ t. later < now + t) (sym (l.expiry-get p.nonce_set now (b ∷ nonce))) soon))
      ]

-- ===== src/Context/Nonces.antt =====
-- Nonces that come again.
use mathlib.Core.Option.{some-injective}
use mobile_android_obfuscati.Common.{
  ℕ, ◌+◌, ◌<◌, ◌≡◌, ◌≢◌, inl, inr, refl, subst, ap, ◌∙◌, arith, true, false, Bool-cases, List, [],
  ◌∷◌, some,
}
use mobile_android_obfuscati.Common.{err, IoErrorKind}
use mobile_android_obfuscati.Replay.PingPongBloom.{Bloom}
use mobile_android_obfuscati.Replay.PingPongBloom.Remembered.{
  IsWellFormed, check_and_set-IsWellFormed, check_and_set-again,
}
use mobile_android_obfuscati.Replay.ReplayProtector
use mobile_android_obfuscati.Replay.ReplayProtector.{LruCache, CipherKind, is_aead_2022}
use mobile_android_obfuscati.Replay.ReplayProtector.Repeated.{check_nonce_and_set-repeated}
use mobile_android_obfuscati.Context.{
  ReplayAttackPolicy, Context, check_nonce_and_set, checked_by, protector_check, effective_policy,
  draw_nonce, generate_nonce, check_nonce_replay,
}

module _ {e : Bloom} {l : LruCache} where
  -- The context rejects nonces that come again.
  abbrev pub Rejects : Context e l → CipherKind → Type 0
  Rejects x method = effective_policy x method ≡ ReplayAttackPolicy.reject

  -- In a context that rejects what comes again, the second of two checks of a nonce that is not empty,
  -- with no check between them, is an error, whatever the first came to, if the filters are well formed
  -- and the time of the set of nonces is not over.
  pub check_nonce_replay_twice :
      (x : Context e l) (now later : ℕ) (method : CipherKind) (b : ℕ) (nonce : List ℕ)
      → Rejects x method
      → IsWellFormed x.replay_protector.nonce_ppbloom
      → later < now + l.expiry x.replay_protector.nonce_set
      → (check_nonce_replay
          (check_nonce_replay x now method (b ∷ nonce)).1
          later
          method
          (b ∷ nonce)).0
        ≡ err IoErrorKind.other_kind
  unfolding check_nonce_replay
  check_nonce_replay_twice x now later method b nonce rejects w soon =
      let again = check_nonce_and_set-repeated x.replay_protector now later method b nonce w soon in
      rw (rejects, rejects, again) refl

  -- The checks of a nonce by the protector are what a policy other than `Ignore` does.
  check_nonce_and_set-protector :
      (x : Context e l) (now : ℕ) (method : CipherKind) (nonce : List ℕ)
      → x.replay_policy ≢ ReplayAttackPolicy.ignore
      → check_nonce_and_set x now method nonce ≡ protector_check x now method nonce
  unfolding check_nonce_and_set
  check_nonce_and_set-protector x now method nonce kept = go x.replay_policy kept
    where
      go :
          (policy : ReplayAttackPolicy)
          → policy ≢ ReplayAttackPolicy.ignore
          → checked_by policy x now method nonce ≡ protector_check x now method nonce
      go ReplayAttackPolicy.default k = refl
      go ReplayAttackPolicy.ignore k = absurd (k refl)
      go ReplayAttackPolicy.detect k = refl
      go ReplayAttackPolicy.reject k = refl

  protector_check-IsWellFormed :
      (x : Context e l) (now : ℕ) (method : CipherKind) (nonce : List ℕ)
      → IsWellFormed x.replay_protector.nonce_ppbloom
      → IsWellFormed (protector_check x now method nonce).1.replay_protector.nonce_ppbloom
  unfolding ReplayProtector.check_nonce_and_set
  protector_check-IsWellFormed x now method [] w = w
  protector_check-IsWellFormed x now CipherKind.stream (b ∷ nonce) w =
      check_and_set-IsWellFormed x.replay_protector.nonce_ppbloom (b ∷ nonce) w
  protector_check-IsWellFormed x now CipherKind.aead (b ∷ nonce) w =
      check_and_set-IsWellFormed x.replay_protector.nonce_ppbloom (b ∷ nonce) w
  protector_check-IsWellFormed x now CipherKind.aead_2022 (b ∷ nonce) w =
      elim (Bool-cases (l.get x.replay_protector.nonce_set now (b ∷ nonce)).0) [
        | inl found ↦ rw found w
        | inr new_nonce ↦ rw new_nonce w
      ]

  -- The context in which the last draw was new.
  abbrev Drawn : Context e l → ℕ → CipherKind → List ℕ → Context e l → Type 0
  Drawn x now method nonce y =
      (z : Context e l) × IsWellFormed z.replay_protector.nonce_ppbloom
      × (z.replay_policy ≡ x.replay_policy)
      × ((protector_check z now method nonce).1 ≡ y)

  draw_nonce-Drawn :
      (x y : Context e l) (now : ℕ) (method : CipherKind) (nonce : List ℕ) (draws : List (List ℕ))
      → x.replay_policy ≢ ReplayAttackPolicy.ignore
      → IsWellFormed x.replay_protector.nonce_ppbloom
      → draw_nonce x now method true draws ≡ some (nonce, y)
      → Drawn x now method nonce y
  unfolding draw_nonce
  draw_nonce-Drawn x y now method nonce [] kept w h = absurd (ground arith)
  draw_nonce-Drawn x y now method nonce (d ∷ draws) kept w h =
      let is = check_nonce_and_set-protector x now method d kept in
      let next = protector_check x now method d in
      elim (Bool-cases next.0) [
        | inl found ↦
            let h' : draw_nonce next.1 now method true draws ≡ some (nonce, y) =
              rw (is, found) at h in
            draw_nonce-Drawn next.1 y now method nonce draws kept
              (protector_check-IsWellFormed x now method d w) h'
        | inr new_nonce ↦
            let h' : some (d, next.1) ≡ some (nonce, y) = rw (is, new_nonce) at h in
            let same = some-injective (d, next.1) (nonce, y) h' in
            (
              x,
              w,
              refl,
              subst (λ n. (protector_check x now method n).1 ≡ y) (ap (λ r. r.0) same)
                  (ap (λ r. r.1) same),
            )
      ]

  protector_check-again :
      (z : Context e l) (now later : ℕ) (method : CipherKind) (b : ℕ) (nonce : List ℕ)
      → is_aead_2022 method ≡ false
      → z.replay_policy ≡ ReplayAttackPolicy.reject
      → IsWellFormed z.replay_protector.nonce_ppbloom
      → (check_nonce_replay (protector_check z now method (b ∷ nonce)).1 later method (b ∷ nonce)).0
        ≡ err IoErrorKind.other_kind
  unfolding check_nonce_replay ReplayProtector.check_nonce_and_set
  protector_check-again z now later CipherKind.stream b nonce old rejects w =
      rw (rejects, check_and_set-again z.replay_protector.nonce_ppbloom (b ∷ nonce) w) refl
  protector_check-again z now later CipherKind.aead b nonce old rejects w =
      rw (rejects, check_and_set-again z.replay_protector.nonce_ppbloom (b ∷ nonce) w) refl
  protector_check-again z now later CipherKind.aead_2022 b nonce old rejects w =
      absurd (ground arith)

  -- A nonce that is not empty and that a context has generated as a unique one, for a method that is not
  -- of AEAD 2022, is an error when it is received, if the policy is to reject and the filters are well
  -- formed.
  pub check_nonce_replay-generated :
      (x y : Context e l) (now later : ℕ) (method : CipherKind) (buffer : List ℕ) (b : ℕ)
      (nonce : List ℕ) (draws : List (List ℕ))
      → is_aead_2022 method ≡ false
      → x.replay_policy ≡ ReplayAttackPolicy.reject
      → IsWellFormed x.replay_protector.nonce_ppbloom
      → generate_nonce x now method buffer true draws ≡ some (b ∷ nonce, y)
      → (check_nonce_replay y later method (b ∷ nonce)).0 ≡ err IoErrorKind.other_kind
  check_nonce_replay-generated x y now later method [] b nonce draws old rejects w h =
      absurd (unfold generate_nonce in ground arith)
  check_nonce_replay-generated x y now later method (c ∷ buffer) b nonce draws old rejects w h =
      let (z, wz, policy, is) =
        draw_nonce-Drawn x y now method (b ∷ nonce) draws (λ ignored. ground arith) w
          (unfold generate_nonce in h) in
      subst (λ t. (check_nonce_replay t later method (b ∷ nonce)).0 ≡ err IoErrorKind.other_kind) is
        (protector_check-again z now later method b nonce old (policy ∙ rejects) wz)

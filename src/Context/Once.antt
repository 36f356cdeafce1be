-- ===== src/Context/Once.antt =====
-- A nonce that comes again after others.
use mobile_android_obfuscati.Common.{
  ℕ, zero, suc, if◌then◌else◌, ◌+◌, ◌≤◌, ◌<◌, ◌≡◌, ◌≢◌, refl, arith, Bool-cases, inl, inr, All,
  List, [], ◌∷◌, length,
}
use mobile_android_obfuscati.Common.{ok, err, IoErrorKind}
use mobile_android_obfuscati.Replay.PingPongBloom.{Bloom}
use mobile_android_obfuscati.Replay.PingPongBloom.Remembered.{IsWellFormed}
use mobile_android_obfuscati.Replay.ReplayProtector
use mobile_android_obfuscati.Replay.ReplayProtector.{LruCache, CipherKind}
use mobile_android_obfuscati.Replay.ReplayProtector.Knows.{
  Knows, Knows-found, check_nonce_and_set-Knows, accepted-Knows,
}
use mobile_android_obfuscati.Context.{Context, check_nonce_replay}
use mobile_android_obfuscati.Context.Nonces.{Rejects}

-- The others are not `nonce`, and are checked before the time `later`.
abbrev pub AreOthers : ℕ → List ℕ → List (ℕ × List ℕ) → Type 0
AreOthers later nonce others = All (λ o. (o.0 ≤ later) × (o.1 ≢ nonce)) others

module _ {e : Bloom} {l : LruCache} where
  -- The checks of other nonces, each at its time.
  abbrev pub check_all : Context e l → CipherKind → List (ℕ × List ℕ) → Context e l
  check_all x method [] = x
  check_all x method ((now, nonce) ∷ others) =
      check_all (check_nonce_replay x now method nonce).1 method others

  check_nonce_replay-Knows :
      (method : CipherKind) (now later n : ℕ) (nonce other : List ℕ) (x : Context e l)
      → Rejects x method
      → now ≤ later
      → other ≢ nonce
      → Knows method later nonce (suc n) x.replay_protector
      → Rejects (check_nonce_replay x now method other).1 method
        × Knows method later nonce n (check_nonce_replay x now method other).1.replay_protector
  unfolding check_nonce_replay
  check_nonce_replay-Knows method now later n nonce [] x rejects early differs knows = (
    rejects,
    unfold ReplayProtector.check_nonce_and_set in
        check_nonce_and_set-Knows method now later n nonce [] x.replay_protector early differs
          knows,
  )
  check_nonce_replay-Knows method now later n nonce (c ∷ other) x rejects early differs knows =
      rw rejects (
        rejects,
        check_nonce_and_set-Knows method now later n nonce (c ∷ other) x.replay_protector early
            differs knows,
      )

  check_all-refuses :
      (method : CipherKind) (later b n : ℕ) (nonce : List ℕ) (others : List (ℕ × List ℕ))
      (x : Context e l)
      → Rejects x method
      → AreOthers later (b ∷ nonce) others
      → length others ≤ n
      → Knows method later (b ∷ nonce) n x.replay_protector
      → (check_nonce_replay (check_all x method others) later method (b ∷ nonce)).0
        ≡ err IoErrorKind.other_kind
  check_all-refuses method later b n nonce [] x rejects differ few knows =
      let found = Knows-found method later b n nonce x.replay_protector knows in
      unfold check_nonce_replay in rw (rejects, found) refl
  check_all-refuses method later b zero nonce (o ∷ others) x rejects differ few knows =
      absurd (omega arith)
  check_all-refuses method later b (suc n) nonce (o ∷ others) x rejects differ few knows =
      let (still, known) =
        check_nonce_replay-Knows method o.0 later n (b ∷ nonce) o.1 x rejects differ.0.0 differ.0.1
          knows in
      check_all-refuses method later b n nonce others (check_nonce_replay x o.0 method o.1).1 still
        differ.1 (omega arith) known

  -- In a context that rejects what comes again, after a nonce that is not empty was accepted and any other
  -- nonces were checked with the same method, no more than one filter is made for and none at a later
  -- time, the check of the nonce is an error, if the filters were well formed and the expiry duration of
  -- the set of nonces is not over.
  pub check_nonce_replay_once :
      (x : Context e l) (now later : ℕ) (method : CipherKind) (b : ℕ) (nonce : List ℕ)
      (others : List (ℕ × List ℕ))
      → Rejects x method
      → IsWellFormed x.replay_protector.nonce_ppbloom
      → later < now + l.expiry x.replay_protector.nonce_set
      → (check_nonce_replay x now method (b ∷ nonce)).0 ≡ ok tt
      → AreOthers later (b ∷ nonce) others
      → length others ≤ x.replay_protector.nonce_ppbloom.item_count
      → (check_nonce_replay
          (check_all (check_nonce_replay x now method (b ∷ nonce)).1 method others)
          later
          method
          (b ∷ nonce)).0
        ≡ err IoErrorKind.other_kind
  check_nonce_replay_once x now later method b nonce others rejects w soon accepted differ few =
      let p = x.replay_protector in
      let checked = ReplayProtector.check_nonce_and_set p now method (b ∷ nonce) in
      let same : check_nonce_replay x now method (b ∷ nonce) ≡ (
        if checked.0 then err IoErrorKind.other_kind else ok tt,
        record x { replay_protector = checked.1 },
      ) =
        unfold check_nonce_replay in rw rejects refl in
      elim (Bool-cases checked.0) [
        | inl found ↦ absurd (ground arith)
        | inr new_nonce ↦ rw same (
            check_all-refuses method later b (length others) nonce others
              (record x { replay_protector = checked.1 }) rejects differ (omega arith)
              (accepted-Knows method now later b (length others) nonce p w soon few new_nonce))
      ]

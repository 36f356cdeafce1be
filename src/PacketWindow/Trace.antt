-- ===== src/PacketWindow/Trace.antt =====
-- Sequences of calls of one filter.
use mobile_android_obfuscati.Common.{ℕ, ◌≡◌, ◌≢◌, arith, true, false, inl, inr}
use mobile_android_obfuscati.Common.{if◌then◌else◌, List, [], ◌∷◌, All, All-imp, Bool-cases, ◌≤◌}
use mobile_android_obfuscati.PacketWindow.{PacketWindowFilter, new, validate_packet_id}
use mobile_android_obfuscati.PacketWindow.Spec.{History, fresh, accepts, observe, Represents}
use mobile_android_obfuscati.PacketWindow.Refinement.{new-Represents, validate_packet_id_refines}

-- The ids that the filter accepts, of a sequence of ids with their limits.
unfoldable pub accepted : PacketWindowFilter → List (ℕ × ℕ) → List ℕ
accepted f [] = []
accepted f ((id, limit) ∷ calls) =
    let (f', accepts_id) = validate_packet_id f id limit in
    let rest = accepted f' calls in if accepts_id then id ∷ rest else rest

abbrev pub Distinct : List ℕ → Type 0
Distinct [] = Unit
Distinct (x ∷ xs) = All (λ y. y ≢ x) xs × Distinct xs

abbrev Unseen : History → List ℕ → Type 0
Unseen h = All (λ i. h.seen i ≡ false)

-- What is unseen after an id was accepted was unseen before, and is another id.
unseen_before :
    (h : History) (id limit : ℕ) (i : ℕ) → (observe h id limit).seen i ≡ false → h.seen i ≡ false
unseen_before h id limit i e = ground arith

unseen_other :
    (h : History) (id limit : ℕ) (i : ℕ)
    → accepts h id limit ≡ true
    → (observe h id limit).seen i ≡ false
    → i ≢ id
unseen_other h id limit i yes_accepted e = ground arith

accepts_unseen :
    (h : History) (id limit : ℕ)
    → ((i : ℕ) → h.seen i ≡ true → i ≤ h.greatest)
    → accepts h id limit ≡ true
    → h.seen id ≡ false
accepts_unseen h id limit below e = ground (arith, below id)

accepted-Distinct :
    (f : PacketWindowFilter) (h : History) (calls : List (ℕ × ℕ))
    → Represents f h
    → Unseen h (accepted f calls) × Distinct (accepted f calls)
unfolding accepted
accepted-Distinct f h [] r = (tt, tt)
accepted-Distinct f h ((id, limit) ∷ calls) r =
    let (answer, r') = validate_packet_id_refines f h id limit r in
    let f' = (validate_packet_id f id limit).0 in
    let h' = observe h id limit in
    let (unseen, distinct) = accepted-Distinct f' h' calls r' in
    let before = All-imp (unseen_before h id limit) (accepted f' calls) unseen in
    elim (Bool-cases (accepts h id limit)) [
      | inl accepting ↦
          rw (answer, accepting)
            (
              (accepts_unseen h id limit r.below accepting, before),
              (
                All-imp (λ i. unseen_other h id limit i accepting) (accepted f' calls) unseen,
                distinct,
              ),
            )
      | inr rejecting ↦ rw (answer, rejecting) (before, distinct)
    ]

-- No packet id is accepted twice, whatever ids and limits a new filter is asked.
pub accepted-new-Distinct : (calls : List (ℕ × ℕ)) → Distinct (accepted new calls)
accepted-new-Distinct calls = (accepted-Distinct new fresh calls new-Represents).1

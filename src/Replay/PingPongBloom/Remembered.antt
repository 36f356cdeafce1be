-- ===== src/Replay/PingPongBloom/Remembered.antt =====
-- How long data stays in the two filters.
use mobile_android_obfuscati.Common.{
  ℕ, zero, suc, subst, ◌+◌, ◌*◌, ◌≤◌, ◌<◌, ◌-◌, ◌≡◌, ◌⊎◌, inl, inr, arith, true, false, List, [],
  ◌∷◌, length, Bool-cases,
}
use mobile_android_obfuscati.Replay.PingPongBloom.{
  at, Bloom, PingPongBloom, ServerType, new, rotate, set_current, check_and_set,
}

module _ {e : Bloom} where
  -- No filter has more entries than it is made for.
  abbrev pub IsWellFormed : PingPongBloom e → Type 0
  IsWellFormed s =
      (s.current < 2)
      × (0 < s.item_count)
      × (s.bloom_count.at_0 ≤ s.item_count)
      × (s.bloom_count.at_1 ≤ s.item_count)

  -- A check of well-formed filters leaves well-formed filters: neither has more entries than it is made
  -- for.
  pub check_and_set-IsWellFormed :
      (s : PingPongBloom e) (buf : List ℕ) → IsWellFormed s → IsWellFormed (check_and_set s buf).1
  unfolding check_and_set rotate set_current
  check_and_set-IsWellFormed s buf w = ground arith

  -- The data stays for that many more insertions.
  abbrev pub Remembers : PingPongBloom e → List ℕ → ℕ → Type 0
  Remembers s buf n =
      ((e.check (at s.blooms s.current) buf ≡ true)
        × (n + at s.bloom_count s.current ≤ 2 * s.item_count))
      ⊎ ((e.check (at s.blooms (1 - s.current)) buf ≡ true)
          × (n + at s.bloom_count s.current ≤ s.item_count))

  pub Remembers-found :
      (s : PingPongBloom e) (buf : List ℕ) (n : ℕ)
      → IsWellFormed s
      → Remembers s buf n
      → (check_and_set s buf).0 ≡ true
  unfolding check_and_set
  Remembers-found s buf n w h = ground arith

  pub fewer-Remembers :
      (s : PingPongBloom e) (buf : List ℕ) (n m : ℕ) → n ≤ m → Remembers s buf m → Remembers s buf n
  fewer-Remembers s buf n m fewer (inl (found, room)) = inl (found, omega arith)
  fewer-Remembers s buf n m fewer (inr (found, room)) = inr (found, omega arith)

  set_current-Remembers :
      (s : PingPongBloom e) (buf : List ℕ)
      → IsWellFormed s
      → at s.bloom_count s.current < s.item_count
      → Remembers (set_current s buf) buf s.item_count
  unfolding set_current
  set_current-Remembers s buf w h = let c = e.check-set (at s.blooms s.current) buf in ground arith

  pub check_and_set-Remembers :
      (s : PingPongBloom e) (buf x : List ℕ) (n : ℕ)
      → IsWellFormed s
      → Remembers s buf (suc n)
      → Remembers (check_and_set s x).1 buf n
  unfolding check_and_set set_current rotate
  check_and_set-Remembers s buf x n w h =
      let c = e.check-set_kept (at s.blooms s.current) buf x in ground arith

  rotate-has_room :
      (s : PingPongBloom e)
      → IsWellFormed s
      → IsWellFormed (rotate s)
        × (at (rotate s).bloom_count (rotate s).current < (rotate s).item_count)
        × ((rotate s).item_count ≡ s.item_count)
  unfolding rotate
  rotate-has_room s w = ground arith

  accepted_state :
      (s : PingPongBloom e) (buf : List ℕ)
      → (check_and_set s buf).0 ≡ false
      → (check_and_set s buf).1 ≡ set_current (rotate s) buf
  unfolding check_and_set
  accepted_state s buf h = ground arith

  pub accepted-Remembers :
      (s : PingPongBloom e) (buf : List ℕ)
      → IsWellFormed s
      → (check_and_set s buf).0 ≡ false
      → Remembers (check_and_set s buf).1 buf s.item_count
  accepted-Remembers s buf w accepted =
      let (w', room, same) = rotate-has_room s w in
      rw (accepted_state s buf accepted) (
        subst (Remembers (set_current (rotate s) buf) buf) same
          (set_current-Remembers (rotate s) buf w' room))

  -- The checks of a sequence of data, one after the other.
  abbrev pub check_all : PingPongBloom e → List (List ℕ) → PingPongBloom e
  check_all s [] = s
  check_all s (x ∷ xs) = check_all (check_and_set s x).1 xs

  Remembers-check_all :
      (s : PingPongBloom e) (buf : List ℕ) (xs : List (List ℕ)) (n : ℕ)
      → IsWellFormed s
      → length xs ≤ n
      → Remembers s buf n
      → (check_and_set (check_all s xs) buf).0 ≡ true
  Remembers-check_all s buf [] n w few h = Remembers-found s buf n w h
  Remembers-check_all s buf (x ∷ xs) zero w few h = absurd (omega arith)
  Remembers-check_all s buf (x ∷ xs) (suc n) w few h =
      Remembers-check_all (check_and_set s x).1 buf xs n (check_and_set-IsWellFormed s x w)
        (omega arith) (check_and_set-Remembers s buf x n w h)

  -- In well-formed filters, data that was accepted is reported as a repetition after any further checks
  -- that are no more than one filter is made for.
  pub accepted-Remembered :
      (s : PingPongBloom e) (buf : List ℕ) (xs : List (List ℕ))
      → IsWellFormed s
      → (check_and_set s buf).0 ≡ false
      → length xs ≤ s.item_count
      → (check_and_set (check_all (check_and_set s buf).1 xs) buf).0 ≡ true
  accepted-Remembered s buf xs w new_data few =
      Remembers-check_all (check_and_set s buf).1 buf xs s.item_count
        (check_and_set-IsWellFormed s buf w) few (accepted-Remembers s buf w new_data)

  found_state :
      (s : PingPongBloom e) (buf : List ℕ)
      → (check_and_set s buf).0 ≡ true
      → (check_and_set s buf).1 ≡ s
  unfolding check_and_set
  found_state s buf h = ground arith

  pub check_and_set-again :
      (s : PingPongBloom e) (buf : List ℕ)
      → IsWellFormed s
      → (check_and_set (check_and_set s buf).1 buf).0 ≡ true
  check_and_set-again s buf w = elim (Bool-cases (check_and_set s buf).0) [
    | inl found ↦ rw (found_state s buf found) found
    | inr new_data ↦ accepted-Remembered s buf [] w new_data (omega arith)
  ]

-- The filters of a new protector are well formed.
pub new-IsWellFormed : (e : Bloom) (ty : ServerType) → IsWellFormed (new {e = e} ty)
unfolding new
new-IsWellFormed e ServerType.local = omega arith
new-IsWellFormed e ServerType.server = omega arith

-- ===== src/Examples/Replay.antt =====
-- Theorem instances for crates/shadowsocks/src/security/replay, with exact sets for the filters.
use mobile_android_obfuscati.Common.{
  ℕ, ◌+◌, ◌<◌, ◌≤◌, ltb, ◌≡◌, refl, Bool-cases, inl, inr, arith, Bool, true, false, ◌&&◌, ◌||◌,
  List, [], ◌∷◌, if◌then◌else◌,
}
use mobile_android_obfuscati.Common.Strings.{bytes, str_eq, str_eq_refl}
use mobile_android_obfuscati.Acl.Rules.{set_contains}
use mobile_android_obfuscati.Replay.PingPongBloom
use mobile_android_obfuscati.Replay.PingPongBloom.{Bloom, PingPongBloom, ServerType, check_and_set}
use mobile_android_obfuscati.Replay.PingPongBloom.Remembered.{
  IsWellFormed, new-IsWellFormed, check_and_set-IsWellFormed, check_all, accepted-Remembered,
}
use mobile_android_obfuscati.Replay.ReplayProtector
use mobile_android_obfuscati.Replay.ReplayProtector.{
  LruCache, ReplayProtector, CipherKind, check_nonce_and_set,
}

pub found_after_set : (f : List (List ℕ)) (a : List ℕ) → set_contains (a ∷ f) a ≡ true
unfolding set_contains
found_after_set f a = rw (str_eq_refl a) refl

pub still_found :
    (f : List (List ℕ)) (a b : List ℕ) → set_contains f a ≡ true → set_contains (b ∷ f) a ≡ true
unfolding set_contains
still_found f a b h = ground arith

abbrev pub exact : Bloom
exact = record {
  Filter = List (List ℕ);
  new_for_fp_rate = λ n r. [];
  check = set_contains;
  set = λ f a. a ∷ f;
  clear = λ f. [];
  check-set = found_after_set;
  check-set_kept = still_found;
}

-- The entries with the time of their last use, and the expiry duration.
abbrev pub is_live : List (List ℕ × ℕ) → ℕ → ℕ → List ℕ → Bool
is_live [] expiry now nonce = false
is_live (entry ∷ entries) expiry now nonce =
    (str_eq entry.0 nonce && ltb now (entry.1 + expiry)) || is_live entries expiry now nonce

abbrev pub get : List (List ℕ × ℕ) × ℕ → ℕ → List ℕ → Bool × (List (List ℕ × ℕ) × ℕ)
get (entries, expiry) now nonce =
    let found = is_live entries expiry now nonce in
    (found, (if found then (nonce, now) ∷ entries else entries, expiry))

pub live_after_insert :
    (entries : List (List ℕ × ℕ)) (expiry now later : ℕ) (nonce : List ℕ)
    → later < now + expiry
    → is_live ((nonce, now) ∷ entries) expiry later nonce ≡ true
live_after_insert entries expiry now later nonce h = let same = str_eq_refl nonce in ground arith

pub kept_behind :
    (entries : List (List ℕ × ℕ)) (expiry now later : ℕ) (nonce other : List ℕ)
    → is_live entries expiry later nonce ≡ true
    → is_live ((other, now) ∷ entries) expiry later nonce ≡ true
kept_behind entries expiry now later nonce other h = ground arith

pub kept_by_get :
    (entries : List (List ℕ × ℕ)) (expiry now later : ℕ) (nonce other : List ℕ)
    → is_live entries expiry later nonce ≡ true
    → is_live (get (entries, expiry) now other).1.0 expiry later nonce ≡ true
kept_by_get entries expiry now later nonce other h =
    elim (Bool-cases (is_live entries expiry now other)) [
      | inl found ↦ rw found (kept_behind entries expiry now later nonce other h)
      | inr none_found ↦ rw none_found h
    ]

abbrev pub entry_list : LruCache
entry_list = record {
  Cache = List (List ℕ × ℕ) × ℕ;
  with_expiry_duration = λ expiry. ([], expiry);
  expiry = λ c. c.1;
  get = get;
  insert = λ c now nonce. ((nonce, now) ∷ c.0, c.1);
  get-insert = λ c now later nonce h. live_after_insert c.0 c.1 now later nonce h;
  get-renewed = λ c now later nonce found h. rw found (live_after_insert c.0 c.1 now later nonce h);
  get-kept =
      λ c now later nonce other in_time differs h. kept_by_get c.0 c.1 now later nonce other h;
  insert-kept =
      λ c now later nonce other in_time differs h. kept_behind c.0 c.1 now later nonce other h;
  expiry-get = λ c now nonce. refl;
}

abbrev bloom : PingPongBloom exact
bloom = PingPongBloom.new ServerType.local

accepted_first : (check_and_set bloom (bytes "salt")).0 ≡ false
unfolding check_and_set PingPongBloom.new set_contains
accepted_first = refl

check_and_set-IsWellFormed_example : IsWellFormed (check_and_set bloom (bytes "salt")).1
check_and_set-IsWellFormed_example =
    check_and_set-IsWellFormed bloom (bytes "salt") (new-IsWellFormed exact ServerType.local)

few : 2 ≤ bloom.item_count
unfolding PingPongBloom.new
few = omega arith

accepted-Remembered_example :
    (check_and_set
      (check_all (check_and_set bloom (bytes "salt")).1 (bytes "a" ∷ bytes "b" ∷ []))
      (bytes "salt")).0
    ≡ true
accepted-Remembered_example =
    accepted-Remembered bloom (bytes "salt") (bytes "a" ∷ bytes "b" ∷ [])
      (new-IsWellFormed exact ServerType.local) accepted_first few

abbrev protector : ReplayProtector exact entry_list
protector = ReplayProtector.new ServerType.local

protector-IsWellFormed : IsWellFormed protector.nonce_ppbloom
unfolding ReplayProtector.new
protector-IsWellFormed = new-IsWellFormed exact ServerType.local

soon : 130 < 100 + protector.nonce_set.1
unfolding ReplayProtector.new
soon = omega arith

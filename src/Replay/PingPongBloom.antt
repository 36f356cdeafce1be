-- ===== src/Replay/PingPongBloom.antt =====
-- `struct PingPongBloom` of crates/shadowsocks/src/security/replay/ppbloom.rs. The Bloom filter of the
-- crate `bloomfilter` is a parameter, with the laws that are relied on.
pub mod Remembered
use mobile_android_obfuscati.Common.{
  ℕ, suc, ◌+◌, ◌%◌, ◌/◌, ◌==◌, leb, ◌≡◌, Bool, true, false, List, if◌then◌else◌,
}

-- An array of two.
pub record Two (A : Type 0) : Type 0 where
  pub at_0 : A
  pub at_1 : A

-- `array[i]` for the indices 0 and 1, and a write there.
abbrev pub at : {A : Type 0} → Two A → ℕ → A
at t i = if i == 0 then t.at_0 else t.at_1

abbrev pub put : {A : Type 0} → Two A → ℕ → A → Two A
put t i a = if i == 0 then record t { at_0 = a } else record t { at_1 = a }

-- `Bloom<[u8]>`: there may be false positives, but what was set is found until the filter is cleared.
-- The rate of false positives is given by its negated decimal exponent.
pub record Bloom : Type 1 where
  pub Filter : Type 0
  pub new_for_fp_rate : ℕ → ℕ → Filter
  pub check : Filter → List ℕ → Bool
  pub set : Filter → List ℕ → Filter
  pub clear : Filter → Filter
  pub check-set : (f : Filter) (a : List ℕ) → check (set f a) a ≡ true
  pub check-set_kept : (f : Filter) (a b : List ℕ) → check f a ≡ true → check (set f b) a ≡ true

abbrev pub bf_num_entries_for_server : ℕ
bf_num_entries_for_server = 1000000

abbrev pub bf_num_entries_for_client : ℕ
bf_num_entries_for_client = 10000

abbrev pub bf_error_rate_for_server : ℕ
bf_error_rate_for_server = 6

abbrev pub bf_error_rate_for_client : ℕ
bf_error_rate_for_client = 15

-- `ServerType` of crates/shadowsocks/src/config.rs.
pub data ServerType : Type 0 where
  local server : ServerType

abbrev pub is_local : ServerType → Bool
is_local ServerType.local = true
is_local ServerType.server = false

module _ (e : Bloom) where
  pub record PingPongBloom : Type 0 where
    pub blooms : Two e.Filter
    pub bloom_count : Two ℕ
    pub item_count : ℕ
    pub current : ℕ

module _ {e : Bloom} where
  abbrev sized : ℕ → ℕ → PingPongBloom e
  sized item_count fp_p = record {
    blooms = record {
      at_0 = e.new_for_fp_rate item_count fp_p;
      at_1 = e.new_for_fp_rate item_count fp_p;
    };
    bloom_count = record { at_0 = 0; at_1 = 0 };
    item_count = item_count;
    current = 0;
  }

  unfoldable pub new : ServerType → PingPongBloom e
  new ty =
      if is_local ty
      then sized (bf_num_entries_for_client / 2) bf_error_rate_for_client
      else sized (bf_num_entries_for_server / 2) bf_error_rate_for_server

  -- The other filter becomes the current one, emptied, if the current one is full.
  unfoldable pub rotate : PingPongBloom e → PingPongBloom e
  rotate s =
      let next = (s.current + 1) % 2 in
      if leb s.item_count (at s.bloom_count s.current)
      then record s {
        current = next;
        bloom_count = put s.bloom_count next 0;
        blooms = put s.blooms next (e.clear (at s.blooms next));
      }
      else s

  unfoldable pub set_current : PingPongBloom e → List ℕ → PingPongBloom e
  set_current s buf = record s {
    blooms = put s.blooms s.current (e.set (at s.blooms s.current) buf);
    bloom_count = put s.bloom_count s.current (at s.bloom_count s.current + 1);
  }

  -- Whether the data was found, and the filters afterwards.
  unfoldable pub check_and_set : PingPongBloom e → List ℕ → Bool × PingPongBloom e
  check_and_set s buf =
      if e.check s.blooms.at_0 buf
      then (true, s)
      else if e.check s.blooms.at_1 buf
      then (true, s)
      else (false, set_current (rotate s) buf)

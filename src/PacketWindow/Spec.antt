-- ===== src/PacketWindow/Spec.antt =====
-- What the filter promises: it behaves as a filter that remembers every accepted id for ever, and
-- rejects an id that is at or over the limit, too far behind the greatest one, or already seen.
use mobile_android_obfuscati.Common.{
  ℕ, ◌+◌, ◌-◌, ◌/◌, ◌%◌, ◌≤◌, ◌<◌, ◌≡◌, Bool, true, false, not, ◌&&◌, ◌||◌, ◌==◌,
}
use mobile_android_obfuscati.Common.{ltb, leb, if◌then◌else◌, length, get_or}
use mobile_android_obfuscati.Common.Bits.{bit}
use mobile_android_obfuscati.PacketWindow.{PacketWindowFilter, ring_blocks, window_size}

-- A memory of unbounded size: which ids were accepted, and the greatest id so far.
pub record History : Type 0 where
  pub seen : ℕ → Bool
  pub greatest : ℕ

abbrev pub fresh : History
fresh = record { seen = λ _. false; greatest = 0 }

abbrev pub accepts : History → ℕ → ℕ → Bool
accepts h id limit =
    ltb id limit && (ltb h.greatest id || leb (h.greatest - id) window_size && not (h.seen id))

abbrev pub remember : History → ℕ → History
remember h id = record {
  seen = λ i. i == id || h.seen i;
  greatest = if ltb h.greatest id then id else h.greatest;
}

abbrev pub observe : History → ℕ → ℕ → History
observe h id limit = if accepts h id limit then remember h id else h

-- The bit of an id in the ring.
abbrev pub bit_of : PacketWindowFilter → ℕ → ℕ
bit_of f id = bit (get_or f.packet_ring (id / 64 % 128) 0) (id % 64)

-- The ring holds, for the ids of the last 128 blocks up to that of the greatest, whether they were seen.
pub record Represents (f : PacketWindowFilter) (h : History) : Type 0 where
  pub ring_length : length f.packet_ring ≡ ring_blocks
  pub last : f.last_packet_id ≡ h.greatest
  pub below : (id : ℕ) → h.seen id ≡ true → id ≤ h.greatest
  pub bits :
      (id : ℕ)
      → id / 64 ≤ h.greatest / 64
      → h.greatest / 64 < id / 64 + 128
      → bit_of f id ≡ (if h.seen id then 1 else 0)

-- ===== src/PacketWindow/Blocks.antt =====
-- The blocks of the ring under `clear_blocks` and `advance`.
use mobile_android_obfuscati.Common.{
  ℕ, zero, suc, ◌+◌, ◌-◌, ◌/◌, ◌%◌, ◌≤◌, ◌<◌, ◌≡◌, ◌≢◌, refl, arith, false, inl, inr, sym, ◌∙◌,
}
use mobile_android_obfuscati.Common.{
  lt→ltb, le→ltb, if◌then◌else◌, length, length-set, get_or, List, get_or-set_self, get_or-set_ne,
  Bool-cases, dec_lt,
}
use mobile_android_obfuscati.Common.Bits.{bit-zero, bit_and-mask_seven}
use mobile_android_obfuscati.PacketWindow.{PacketWindowFilter, ring_blocks, clear_blocks, advance}
use mobile_android_obfuscati.PacketWindow.Spec.{History, bit_of, Represents}
use native.Mathlib.Decide.{ℕ_discrete}

length-clear_blocks :
    (current d : ℕ) (ring : List ℕ) → length (clear_blocks current d ring) ≡ length ring
unfolding clear_blocks
length-clear_blocks current zero ring = refl
length-clear_blocks current (suc d) ring =
    length-set (clear_blocks current d ring) _ 0 ∙ length-clear_blocks current d ring

-- A block after `current` and at most `d` further on is cleared.
clear_blocks_within :
    (current d b : ℕ) (ring : List ℕ)
    → length ring ≡ ring_blocks
    → current < b
    → b ≤ current + d
    → get_or (clear_blocks current d ring) (b % 128) 0 ≡ 0
unfolding clear_blocks
clear_blocks_within current zero b ring len lo hi = absurd (omega arith)
clear_blocks_within current (suc d) b ring len lo hi =
    elim (ℕ_discrete (b % 128) ((current + suc d) % 128)) [
      | yes same ↦ rw (
        bit_and-mask_seven,
        same,
        get_or-set_self (clear_blocks current d ring) ((current + suc d) % 128) 0 0
            (omega (arith, length-clear_blocks current d ring)),
      )
      | no other ↦
          rw
            (
              bit_and-mask_seven,
              get_or-set_ne (clear_blocks current d ring) ((current + suc d) % 128) (b % 128) 0 0
                  (λ e. other (sym e)),
            )
            (clear_blocks_within current d b ring len lo (within other))
    ]
  where
    within : b % 128 ≢ (current + suc d) % 128 → b ≤ current + d
    within other = elim (ℕ_discrete b (current + suc d)) [
      | yes e ↦ absurd (other (rw e))
      | no ne ↦ omega arith
    ]

-- A block up to `current`, of the last 128 at the end, keeps its word.
clear_blocks_outside :
    (current d b : ℕ) (ring : List ℕ)
    → b ≤ current
    → current + d < b + 128
    → get_or (clear_blocks current d ring) (b % 128) 0 ≡ get_or ring (b % 128) 0
unfolding clear_blocks
clear_blocks_outside current zero b ring lo hi = refl
clear_blocks_outside current (suc d) b ring lo hi =
    rw
      (
        bit_and-mask_seven,
        get_or-set_ne (clear_blocks current d ring) ((current + suc d) % 128) (b % 128) 0 0
            (λ e. absurd (omega arith)),
      )
      (clear_blocks_outside current d b ring lo (omega arith))

-- Clearing 128 blocks clears every block.
clear_blocks_all :
    (current b : ℕ) (ring : List ℕ)
    → length ring ≡ ring_blocks
    → get_or (clear_blocks current 128 ring) (b % 128) 0 ≡ 0
clear_blocks_all current b ring len =
    let b' = current + 1 + (b + 127 - current % 128) % 128 in
    let same : b % 128 ≡ b' % 128 = omega arith in
    rw same (clear_blocks_within current 128 b' ring len (omega arith) (omega arith))

-- `advance` keeps the words of the blocks that stay in the window, and clears the new ones.
advance_old_block :
    (f : PacketWindowFilter) (packet_id b : ℕ)
    → b ≤ f.last_packet_id / 64
    → packet_id / 64 < b + 128
    → get_or (advance f packet_id).packet_ring (b % 128) 0 ≡ get_or f.packet_ring (b % 128) 0
unfolding advance clear_blocks
advance_old_block f packet_id b old win =
    let current = f.last_packet_id / 64 in
    let diff = packet_id / 64 - current in
    rw (le→ltb 128 diff (omega arith)) (elim (dec_lt current (packet_id / 64)) [
      | yes lt ↦ clear_blocks_outside current diff b f.packet_ring old (omega arith)
      | no ge ↦ let none_left : diff ≡ 0 = omega arith in rw (none_left, clear_blocks)
    ])

advance_new_block :
    (f : PacketWindowFilter) (packet_id b : ℕ)
    → length f.packet_ring ≡ ring_blocks
    → f.last_packet_id / 64 < b
    → b ≤ packet_id / 64
    → get_or (advance f packet_id).packet_ring (b % 128) 0 ≡ 0
unfolding advance
advance_new_block f packet_id b len lo hi =
    let current = f.last_packet_id / 64 in
    let diff = packet_id / 64 - current in
    elim (dec_lt 128 diff) [
      | yes lt ↦ rw (lt→ltb 128 diff lt) (clear_blocks_all current b f.packet_ring len)
      | no ge ↦
          rw (le→ltb 128 diff (omega arith))
            (clear_blocks_within current diff b f.packet_ring len lo (omega arith))
    ]

-- After `advance` the ring tells, for every id of the new window, whether it was seen before.
pub advance_bits :
    (f : PacketWindowFilter) (h : History) (packet_id id : ℕ)
    → Represents f h
    → h.greatest < packet_id
    → id / 64 ≤ packet_id / 64
    → packet_id / 64 < id / 64 + 128
    → bit_of (advance f packet_id) id ≡ (if h.seen id then 1 else 0)
advance_bits f h packet_id id r ahead le win = elim (dec_lt (h.greatest / 64) (id / 64)) [
  | yes new_block ↦
      let unseen : h.seen id ≡ false = not_seen new_block in
      rw (
        unseen,
        advance_new_block f packet_id (id / 64) r.ring_length (rw r.last new_block) le,
        bit-zero,
      )
  | no old_block ↦
      rw (advance_old_block f packet_id (id / 64) (rw r.last (omega arith)) win)
        (r.bits id (omega arith) (omega arith))
]
  where
    not_seen : h.greatest / 64 < id / 64 → h.seen id ≡ false
    not_seen lt = elim (Bool-cases (h.seen id)) [
      | inl e ↦ absurd (omega (arith, r.below id e))
      | inr e ↦ e
    ]

pub length-advance :
    (f : PacketWindowFilter) (packet_id : ℕ)
    → length (advance f packet_id).packet_ring ≡ length f.packet_ring
unfolding advance
length-advance f packet_id = length-clear_blocks _ _ f.packet_ring

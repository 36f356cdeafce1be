-- ===== src/PacketWindow/Refinement.antt =====
-- Each operation of the filter refines the history.
use Prim.Native.Nat.{bit_or}
use mobile_android_obfuscati.Common.{
  ℕ, ◌+◌, ◌-◌, ◌/◌, ◌%◌, ◌^◌, ◌≤◌, ◌<◌, ◌≡◌, ◌≢◌, refl, arith, Bool, true, not, ◌||◌, ◌==◌, inl,
  inr, ap, ◌∙◌,
}
use mobile_android_obfuscati.Common.{
  le→leb, lt→leb, eq→==, ne→==, lt→ltb, le→ltb, if◌then◌else◌, length, length-set, get_or,
  get_or-set_self, get_or-set_ne, get_or-replicate, Bool-cases, dec_lt,
}
use mobile_android_obfuscati.Common.Bits.{
  bit, bit-set, bit_or-absorb, bit-zero, bit-le-one, bit_and-mask_six, bit_and-mask_seven,
}
use mobile_android_obfuscati.PacketWindow.{
  PacketWindowFilter, ring_blocks, window_size, new, reset, advance, check_and_set_bit,
  validate_packet_id,
}
use mobile_android_obfuscati.PacketWindow.Spec.{
  History, fresh, accepts, observe, bit_of, Represents,
}
use mobile_android_obfuscati.PacketWindow.Blocks.{advance_bits, length-advance}
use native.Mathlib.Decide.{ℕ_discrete}

-- The empty filter has seen nothing.
pub new-Represents : Represents new fresh
unfolding new
new-Represents = record {
  ring_length = refl;
  last = refl;
  below = λ id e. cc;
  bits = λ id le win. rw get_or-replicate (bit-zero (id % 64));
}

-- `reset` clears only the first block of the ring, and that is enough to forget everything.
pub reset-Represents :
    (f : PacketWindowFilter) (h : History) → Represents f h → Represents (reset f) fresh
unfolding reset
reset-Represents f h r = record {
  ring_length = length-set f.packet_ring 0 0 ∙ r.ring_length;
  last = refl;
  below = λ id e. cc;
  bits = λ id le win. bits_after_reset id le;
}
  where
    zero_block : (id : ℕ) → id / 64 ≤ 0 → id / 64 % 128 ≡ 0
    zero_block id le = omega arith

    bits_after_reset : (id : ℕ) → id / 64 ≤ 0 → bit_of (reset f) id ≡ 0
    bits_after_reset id le = rw (
      zero_block id le,
      get_or-set_self f.packet_ring 0 0 0 (omega (arith, r.ring_length)),
      bit-zero,
    )

-- The word with the bit set differs from the old word exactly if the bit was clear.
word_changes : (w b : ℕ) → not (w == bit_or w (2 ^ b)) ≡ (bit w b == 0)
word_changes w b = elim (ℕ_discrete (bit w b) 1) [
  | yes one ↦ rw (bit_or-absorb w b one, one, eq→== w w refl) refl
  | no clear ↦ rw (ne→== w (bit_or w (2 ^ b)) (λ e. clear (bit_is_set e)), zero_bit clear) refl
]
  where
    bit_is_set : w ≡ bit_or w (2 ^ b) → bit w b ≡ 1
    bit_is_set e = ap (λ (x : ℕ). bit x b) e ∙ bit-set w b b ∙ ground arith

    zero_bit : bit w b ≢ 1 → bit w b ≡ 0
    zero_bit clear = omega (arith, bit-le-one w b)

-- `check_and_set_bit` answers whether the bit was clear, and sets it alone.
check_and_set_bit_answer :
    (f : PacketWindowFilter) (id : ℕ) → (check_and_set_bit f id).1 ≡ (bit_of f id == 0)
unfolding check_and_set_bit
check_and_set_bit_answer f id =
    rw (bit_and-mask_seven, bit_and-mask_six)
      (word_changes (get_or f.packet_ring (id / 64 % 128) 0) (id % 64))

check_and_set_bit_bits :
    (f : PacketWindowFilter) (id other : ℕ)
    → length f.packet_ring ≡ ring_blocks
    → id / 64 < other / 64 + 128
    → other / 64 < id / 64 + 128
    → bit_of (check_and_set_bit f id).0 other ≡ (if other == id then 1 else bit_of f other)
unfolding check_and_set_bit
check_and_set_bit_bits f id other len lo hi =
    rw (bit_and-mask_seven, bit_and-mask_six)
      (elim (ℕ_discrete (id / 64 % 128) (other / 64 % 128)) [
        | yes same ↦
            let word = get_or f.packet_ring (other / 64 % 128) 0 in
            rw
              (
                same,
                get_or-set_self f.packet_ring (other / 64 % 128) (bit_or word (2 ^ (id % 64))) 0
                    (omega (arith, len)),
              )
              (ground (arith, bit-set word (id % 64) (other % 64)))
        | no differ ↦
            rw (get_or-set_ne f.packet_ring (id / 64 % 128) (other / 64 % 128) _ 0 differ)
              (ground arith)
      ])

-- Setting the bit of an id in the window, where `g` is the greatest id from then on.
module _ (f : PacketWindowFilter) (h : History) (id g : ℕ)
    (len : length f.packet_ring ≡ ring_blocks) (last : f.last_packet_id ≡ g)
    (below : (i : ℕ) → h.seen i ≡ true → i ≤ g)
    (bits : (i : ℕ)
      → i / 64 ≤ g / 64
      → g / 64 < i / 64 + 128
      → bit_of f i ≡ (if h.seen i then 1 else 0))
    (le : id ≤ g) (win : g / 64 < id / 64 + 128) where
  set_bit_answer : (check_and_set_bit f id).1 ≡ not (h.seen id)
  set_bit_answer = check_and_set_bit_answer f id ∙ ground (arith, bits id (omega arith) win)

  set_bit_Represents :
      (seen' : ℕ → Bool)
      → ((i : ℕ) → seen' i ≡ (i == id || h.seen i))
      → Represents (check_and_set_bit f id).0 (record { seen = seen'; greatest = g })
  set_bit_Represents seen' same = record {
    ring_length = unfold check_and_set_bit in length-set f.packet_ring _ _ ∙ len;
    last = unfold check_and_set_bit in last;
    below = λ i e. ground (arith, same i, below i);
    bits = λ i lo hi. ground (
      arith,
      same i,
      check_and_set_bit_bits f id i len (omega arith) (omega arith),
      bits i lo hi,
    );
  }

module _ (f : PacketWindowFilter) (h : History) (id limit : ℕ) (r : Represents f h) where
  abbrev Refines : Type 0
  Refines =
      ((validate_packet_id f id limit).1 ≡ accepts h id limit)
      × Represents (validate_packet_id f id limit).0 (observe h id limit)

  over_limit : limit ≤ id → Refines
  unfolding validate_packet_id
  over_limit over = rw (le→leb limit id over, le→ltb id limit over) (refl, r)

  behind_window : id < limit → id + window_size < h.greatest → Refines
  unfolding validate_packet_id
  behind_window under behind =
      rw
        (
          lt→leb limit id under,
          lt→ltb id limit under,
          le→ltb f.last_packet_id id (omega (arith, r.last)),
          lt→ltb window_size (f.last_packet_id - id) (omega (arith, r.last)),
          le→ltb h.greatest id (omega arith),
          lt→leb (h.greatest - id) window_size (omega arith),
        )
        (refl, r)

  ahead : id < limit → h.greatest < id → Refines
  unfolding validate_packet_id
  ahead under more =
      rw
        (
          lt→leb limit id under,
          lt→ltb id limit under,
          lt→ltb f.last_packet_id id (omega (arith, r.last)),
          lt→ltb h.greatest id more,
        )
        (
          answer ∙ unseen,
          set_bit_Represents (advance f id) h id id (length-advance f id ∙ r.ring_length)
              (unfold advance in refl) (λ i e. omega (arith, r.below i e))
              (λ i lo hi. advance_bits f h id i r more lo hi) (omega arith) (omega arith)
              (λ i. i == id || h.seen i) (λ i. refl),
        )
    where
      answer : (check_and_set_bit (advance f id) id).1 ≡ not (h.seen id)
      answer =
          set_bit_answer (advance f id) h id id (length-advance f id ∙ r.ring_length)
            (unfold advance in refl) (λ i e. omega (arith, r.below i e))
            (λ i lo hi. advance_bits f h id i r more lo hi) (omega arith) (omega arith)

      unseen : not (h.seen id) ≡ true
      unseen = elim (Bool-cases (h.seen id)) [
        | inl e ↦ absurd (omega (arith, r.below id e))
        | inr e ↦ rw e
      ]

  in_window : id < limit → id ≤ h.greatest → h.greatest ≤ id + window_size → Refines
  unfolding validate_packet_id
  in_window under le win =
      rw
        (
          lt→leb limit id under,
          lt→ltb id limit under,
          le→ltb f.last_packet_id id (omega (arith, r.last)),
          le→ltb window_size (f.last_packet_id - id) (omega (arith, r.last)),
          le→ltb h.greatest id le,
          le→leb (h.greatest - id) window_size (omega arith),
        )
        (
          set_bit_answer f h id h.greatest r.ring_length r.last r.below r.bits le (omega arith),
          elim (Bool-cases (h.seen id)) [
            | inl old ↦ rw old (stored h.seen (λ i. known old i))
            | inr new_id ↦ rw new_id (stored (λ i. i == id || h.seen i) (λ i. refl))
          ],
        )
    where
      stored :
          (seen' : ℕ → Bool)
          → ((i : ℕ) → seen' i ≡ (i == id || h.seen i))
          → Represents (check_and_set_bit f id).0 (record { seen = seen'; greatest = h.greatest })
      stored =
          set_bit_Represents f h id h.greatest r.ring_length r.last r.below r.bits le (omega arith)

      known : h.seen id ≡ true → (i : ℕ) → h.seen i ≡ (i == id || h.seen i)
      known old i = elim (ℕ_discrete i id) [
        | yes e ↦ rw (e, old, eq→== id id refl)
        | no ne ↦ rw (ne→== i id ne)
      ]

-- On a filter that represents a history, `validate_packet_id` answers as the filter with an unbounded
-- memory of that history does, and the new filter represents the new history, whatever the id and the
-- limit.
pub validate_packet_id_refines :
    (f : PacketWindowFilter) (h : History) (id limit : ℕ)
    → Represents f h
    → ((validate_packet_id f id limit).1 ≡ accepts h id limit)
      × Represents (validate_packet_id f id limit).0 (observe h id limit)
validate_packet_id_refines f h id limit r = elim (dec_lt id limit) [
  | no over ↦ over_limit f h id limit r (omega arith)
  | yes under ↦ elim (dec_lt h.greatest id) [
    | yes more ↦ ahead f h id limit r under more
    | no le ↦ elim (dec_lt (id + window_size) h.greatest) [
      | yes behind ↦ behind_window f h id limit r under behind
      | no win ↦ in_window f h id limit r under (omega arith) (omega arith)
    ]
  ]
]

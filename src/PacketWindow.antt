-- ===== src/PacketWindow.antt =====
-- crates/shadowsocks-service/src/net/packet_window.rs: the sliding window that rejects packet ids
-- which were seen before. Ids are `u64`: every shift and sum below stays in range, so the numbers
-- need no wrap-around; `1 << index_bit` has `index_bit < 64`.
pub mod Spec
pub mod Blocks
pub mod Refinement
pub mod Trace
use Prim.Native.Nat.{bit_and, bit_or, min}
use mobile_android_obfuscati.Common.{
  ℕ, zero, suc, ◌+◌, ◌-◌, ◌*◌, ◌/◌, ◌^◌, Bool, true, false, not, ◌==◌,
}
use mobile_android_obfuscati.Common.{ltb, leb, if◌then◌else◌, List, get_or, set, replicate}

abbrev pub block_bit_log : ℕ
block_bit_log = 6

abbrev pub block_bits : ℕ
block_bits = 2 ^ block_bit_log

abbrev pub ring_blocks : ℕ
ring_blocks = 2 ^ 7

abbrev pub window_size : ℕ
window_size = (ring_blocks - 1) * block_bits

abbrev pub block_mask : ℕ
block_mask = ring_blocks - 1

abbrev pub bit_mask : ℕ
bit_mask = block_bits - 1

pub record PacketWindowFilter : Type 0 where
  pub last_packet_id : ℕ
  pub packet_ring : List ℕ

unfoldable pub new : PacketWindowFilter
new = record { last_packet_id = 0; packet_ring = replicate ring_blocks 0 }

unfoldable pub reset : PacketWindowFilter → PacketWindowFilter
reset f = record { last_packet_id = 0; packet_ring = set f.packet_ring 0 0 }

-- `for d in 1..=diff { self.packet_ring[((current + d) & BLOCK_MASK) as usize] = 0; }`
unfoldable pub clear_blocks : ℕ → ℕ → List ℕ → List ℕ
clear_blocks current zero ring = ring
clear_blocks current (suc d) ring =
    set (clear_blocks current d ring) (bit_and (current + suc d) block_mask) 0

-- Moves the window forward to `packet_id`.
unfoldable pub advance : PacketWindowFilter → ℕ → PacketWindowFilter
advance f packet_id =
    let current = f.last_packet_id / 2 ^ block_bit_log in
    let diff = packet_id / 2 ^ block_bit_log - current in
    let diff' = if ltb ring_blocks diff then ring_blocks else diff in
    record { last_packet_id = packet_id; packet_ring = clear_blocks current diff' f.packet_ring }

-- Checks and sets the bit of `packet_id`.
unfoldable pub check_and_set_bit : PacketWindowFilter → ℕ → PacketWindowFilter × Bool
check_and_set_bit f packet_id =
    let index_block = bit_and (packet_id / 2 ^ block_bit_log) block_mask in
    let index_bit = bit_and packet_id bit_mask in
    let old = get_or f.packet_ring index_block 0 in
    let new_word = bit_or old (2 ^ index_bit) in
    (record f { packet_ring = set f.packet_ring index_block new_word }, not (old == new_word))

unfoldable pub validate_packet_id : PacketWindowFilter → ℕ → ℕ → PacketWindowFilter × Bool
validate_packet_id f packet_id limit =
    if leb limit packet_id
    then (f, false)
    else if ltb f.last_packet_id packet_id
    then check_and_set_bit (advance f packet_id) packet_id
    else if ltb window_size (f.last_packet_id - packet_id)
    then (f, false)
    else check_and_set_bit f packet_id

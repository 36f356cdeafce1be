-- ===== src/Examples/PacketWindow.antt =====
-- Runs and theorem instances for crates/shadowsocks-service/src/net/packet_window.rs.
use mobile_android_obfuscati.Common.{ℕ, ◌≡◌, refl, List, [], ◌∷◌}
use mobile_android_obfuscati.PacketWindow.{
  new, validate_packet_id, clear_blocks, advance, check_and_set_bit,
}
use mobile_android_obfuscati.PacketWindow.Spec.{fresh, accepts, observe, Represents}
use mobile_android_obfuscati.PacketWindow.Refinement.{new-Represents, validate_packet_id_refines}
use mobile_android_obfuscati.PacketWindow.Trace.{accepted, Distinct, accepted-new-Distinct}

-- The first calls of the unit test `test_packet_window`, with a jump that moves the window.
abbrev calls : List (ℕ × ℕ)
calls =
    (0, 100000)
    ∷ (1, 100000)
    ∷ (1, 100000)
    ∷ (9, 100000)
    ∷ (8, 100000)
    ∷ (8129, 100000)
    ∷ (8128, 100000)
    ∷ (2, 100000)
    ∷ (2, 100000)
    ∷ (8145, 100000)
    ∷ (3, 100000)
    ∷ []

accepted_run : accepted new calls ≡ 0 ∷ 1 ∷ 9 ∷ 8 ∷ 8129 ∷ 8128 ∷ 2 ∷ 8145 ∷ []
unfolding accepted new validate_packet_id clear_blocks advance check_and_set_bit
accepted_run = refl

validate_packet_id_refines_example :
    ((validate_packet_id new 9 100).1 ≡ accepts fresh 9 100)
    × Represents (validate_packet_id new 9 100).0 (observe fresh 9 100)
validate_packet_id_refines_example = validate_packet_id_refines new fresh 9 100 new-Represents

accepted-new-Distinct_example : Distinct (accepted new calls)
accepted-new-Distinct_example = accepted-new-Distinct calls

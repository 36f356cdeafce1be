-- ===== src/Examples/Context.antt =====
-- Theorem instances for crates/shadowsocks/src/context.rs, with exact sets for the filters.
use mobile_android_obfuscati.Common.{
  ℕ, List, ok, ◌+◌, ◌≤◌, ◌<◌, ◌≡◌, refl, arith, true, [], ◌∷◌, some, err, IoErrorKind,
}
use mobile_android_obfuscati.Common.Strings.{bytes}
use mobile_android_obfuscati.Acl.Rules.{set_contains}
use mobile_android_obfuscati.Replay.PingPongBloom
use mobile_android_obfuscati.Replay.PingPongBloom.{ServerType}
use mobile_android_obfuscati.Replay.PingPongBloom.Remembered.{IsWellFormed, new-IsWellFormed}
use mobile_android_obfuscati.Replay.ReplayProtector
use mobile_android_obfuscati.Replay.ReplayProtector.{CipherKind}
use mobile_android_obfuscati.Context.{
  ReplayAttackPolicy, Context, new, check_nonce_replay, check_nonce_and_set, draw_nonce,
  generate_nonce,
}
use mobile_android_obfuscati.Context.Once.{check_all, check_nonce_replay_once}
use mobile_android_obfuscati.Aead.Transport.{ReadEvent}
use mobile_android_obfuscati.Aead.Reader.Receive.{receive, arriving}
use mobile_android_obfuscati.Context.{nonce_check}
use mobile_android_obfuscati.Context.Replays.{receive_replayed}
use mobile_android_obfuscati.Examples.Aead.Toy.{toy}
use mobile_android_obfuscati.Examples.Replay.{exact, entry_list}

abbrev pub strict : Context exact entry_list
strict = record (new ServerType.server) { replay_policy = ReplayAttackPolicy.reject }

pub strict-IsWellFormed : IsWellFormed strict.replay_protector.nonce_ppbloom
unfolding ReplayProtector.new
strict-IsWellFormed = new-IsWellFormed exact ServerType.server

soon : 130 < 100 + strict.replay_protector.nonce_set.1
unfolding ReplayProtector.new
soon = omega arith

-- Salts that are checked between.
abbrev others : List (ℕ × List ℕ)
others = (110, bytes "pepper") ∷ (120, bytes "sb") ∷ []

fits : 2 ≤ strict.replay_protector.nonce_ppbloom.item_count
unfolding ReplayProtector.new PingPongBloom.new
fits = omega arith

accepted_salt : (check_nonce_replay strict 100 CipherKind.aead (bytes "salt")).0 ≡ ok tt
unfolding check_nonce_replay ReplayProtector.check_nonce_and_set ReplayProtector.new
    PingPongBloom.check_and_set PingPongBloom.new set_contains
accepted_salt = refl

check_nonce_replay_once_example :
    (check_nonce_replay
      (check_all
        (check_nonce_replay strict 100 CipherKind.aead (bytes "salt")).1
        CipherKind.aead
        others)
      130
      CipherKind.aead
      (bytes "salt")).0
    ≡ err IoErrorKind.other_kind
check_nonce_replay_once_example =
    check_nonce_replay_once strict 100 130 CipherKind.aead b's' (bytes "alt") others refl
      strict-IsWellFormed soon accepted_salt
      (
        (omega arith, λ same. absurd (ground arith)),
        ((omega arith, λ same. absurd (ground arith)), tt),
      )
      fits

-- The context after it has generated the nonce `salt`.
abbrev generated : Context exact entry_list
generated = (check_nonce_and_set strict 100 CipherKind.aead (bytes "salt")).1

generated_lem :
    generate_nonce strict 100 CipherKind.aead (0 ∷ 0 ∷ 0 ∷ 0 ∷ []) true (bytes "salt" ∷ [])
    ≡ some (bytes "salt", generated)
unfolding generate_nonce draw_nonce check_nonce_and_set ReplayProtector.check_nonce_and_set
    ReplayProtector.new PingPongBloom.check_and_set PingPongBloom.new set_contains
generated_lem = refl

-- The stream that a first connection has sent arrives again.
abbrev replayed : List ReadEvent
replayed =
    ReadEvent.arrived (b's' ∷ b'a' ∷ 0 ∷ [])
    ∷ ReadEvent.pending
    ∷ ReadEvent.arrived (1 ∷ 7 ∷ 104 ∷ 8 ∷ [])
    ∷ []

accepted_sa : (check_nonce_replay strict 100 CipherKind.aead (bytes "sa")).0 ≡ ok tt
unfolding check_nonce_replay ReplayProtector.check_nonce_and_set ReplayProtector.new
    PingPongBloom.check_and_set PingPongBloom.new set_contains
accepted_sa = refl

receive_replayed_example :
    receive toy (nonce_check exact entry_list 130 CipherKind.aead) (4 ∷ 4 ∷ 4 ∷ []) (
      arriving
        (7 ∷ [])
        (check_all
          (check_nonce_replay strict 100 CipherKind.aead (bytes "sa")).1
          CipherKind.aead
          others)
        replayed)
    ≡ []
receive_replayed_example =
    receive_replayed toy strict 100 130 CipherKind.aead (7 ∷ []) b's' (bytes "a")
      (0 ∷ 1 ∷ 7 ∷ 104 ∷ 8 ∷ []) others replayed (4 ∷ 4 ∷ 4 ∷ []) refl strict-IsWellFormed soon
      accepted_sa
      (
        (omega arith, λ same. absurd (ground arith)),
        ((omega arith, λ same. absurd (ground arith)), tt),
      )
      fits (omega arith) refl refl

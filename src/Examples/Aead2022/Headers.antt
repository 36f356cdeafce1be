-- ===== src/Examples/Aead2022/Headers.antt =====
-- A header of AEAD 2022 that comes twice, over the context of Examples.Context.
use mobile_android_obfuscati.Common.{
  ℕ, ◌<◌, ◌≡◌, ◌≢◌, refl, arith, List, length, [], ◌∷◌, none, some, ok,
}
use mobile_android_obfuscati.Aead.Async.{Poll}
use mobile_android_obfuscati.Replay.ReplayProtector
use mobile_android_obfuscati.Replay.ReplayProtector.{CipherKind}
use mobile_android_obfuscati.Context.{Context, nonce_check, check_nonce_replay}
use mobile_android_obfuscati.Aead2022.Header.{StreamType}
use mobile_android_obfuscati.Aead2022.Connection.{Connection, with_user_manager}
use mobile_android_obfuscati.Aead2022.Handshake.{read_whole_header}
use mobile_android_obfuscati.Aead2022.Handshake.Agrees.{Understood, read_whole_header-Understood}
use mobile_android_obfuscati.Aead2022.Handshake.Agrees.Keys.{header_bytes}
use mobile_android_obfuscati.Aead2022.Reader.{poll_read_decrypted, Answer}
use mobile_android_obfuscati.Aead2022.Reader.Ends.{poll_read_decrypted_2022_total}
use mobile_android_obfuscati.Aead2022.EndToEnd.{arriving}
use mobile_android_obfuscati.Aead2022.Replays.{read_whole_header_once}
use mobile_android_obfuscati.Examples.Aead.Toy.{toy, accepting}
use mobile_android_obfuscati.Examples.Replay.{exact, entry_list}
use mobile_android_obfuscati.Examples.Context.{strict, strict-IsWellFormed}
use mobile_android_obfuscati.Examples.Aead2022.{
  primitives, server_key, user_key, users, opening, opening-EndsAgree, server,
}

-- The header of a first chunk of five bytes, at the time 1000.
abbrev h : List ℕ
h =
    (header_bytes toy primitives opening.ty opening.method user_key (server_key ∷ []) (1 ∷ 2 ∷ [])
      1000 none 5).0

-- A new reader of the server.
abbrev at_server :
    (now : ℕ)
    → Context exact entry_list
    → Connection toy (nonce_check exact entry_list now CipherKind.aead_2022)
at_server now context =
    arriving toy (nonce_check exact entry_list now CipherKind.aead_2022) opening server_key
      (some users) context []

salt_is_new : (check_nonce_replay strict 990 CipherKind.aead_2022 (1 ∷ 2 ∷ [])).0 ≡ ok tt
unfolding check_nonce_replay ReplayProtector.check_nonce_and_set ReplayProtector.new
salt_is_new = refl

read_whole_header-Understood_example :
    (y : Connection toy (nonce_check exact entry_list 990 CipherKind.aead_2022))
    × (read_whole_header toy
          (nonce_check exact entry_list 990 CipherKind.aead_2022)
          primitives
          990
          server_key
          h
          (at_server 990 strict)
        ≡ (Poll.ready (ok (some 5)), y))
    × Understood primitives 990 user_key
        (1 ∷ 2 ∷ [])
        none
        (header_bytes toy primitives opening.ty opening.method user_key
          (server_key ∷ [])
          (1 ∷ 2 ∷ [])
          1000
          none
          5).1
        (at_server 990 strict)
        y
unfolding with_user_manager
read_whole_header-Understood_example =
    read_whole_header-Understood primitives 990 opening.ty opening.method user_key (server_key ∷ [])
      server_key (some users) (1 ∷ 2 ∷ []) 1000 5 none (at_server 990 strict) opening-EndsAgree.keys
      (record { stream_type_is = refl; method_is = refl; users_are = refl }) refl tt (omega arith)
      (omega arith) (omega arith) salt_is_new

understood :
    (y : Connection toy (nonce_check exact entry_list 990 CipherKind.aead_2022))
    × (read_whole_header toy
          (nonce_check exact entry_list 990 CipherKind.aead_2022)
          primitives
          990
          server_key
          h
          (at_server 990 strict)
        ≡ (Poll.ready (ok (some 5)), y))
    × Understood primitives 990 user_key
        (1 ∷ 2 ∷ [])
        none
        (header_bytes toy primitives opening.ty opening.method user_key
          (server_key ∷ [])
          (1 ∷ 2 ∷ [])
          1000
          none
          5).1
        (at_server 990 strict)
        y
unfolding with_user_manager
understood =
    read_whole_header-Understood primitives 990 opening.ty opening.method user_key (server_key ∷ [])
      server_key (some users) (1 ∷ 2 ∷ []) 1000 5 none (at_server 990 strict) opening-EndsAgree.keys
      (record { stream_type_is = refl; method_is = refl; users_are = refl }) refl tt (omega arith)
      (omega arith) (omega arith) salt_is_new

header_bytes_are : 0 < length h
header_bytes_are = omega arith

set_expiry : entry_list.expiry strict.replay_protector.nonce_set ≡ 60
unfolding ReplayProtector.new
set_expiry = refl

is_server : (at_server 990 strict).reader.stream_ty ≡ StreamType.server
unfolding with_user_manager
is_server = refl

read_whole_header_once_example :
    read_whole_header toy
      (nonce_check exact entry_list 1020 CipherKind.aead_2022)
      primitives
      1020
      server_key
      h
      (at_server 1020 understood.0.context)
    ≢ (Poll.ready (ok (some 5)), at_server 1020 strict)
read_whole_header_once_example =
    read_whole_header_once toy primitives 990 1020 server_key h (some 5) (some 5)
      (at_server 990 strict) understood.0 (at_server 1020 understood.0.context)
      (at_server 1020 strict) is_server (omega arith) header_bytes_are strict-IsWellFormed
      set_expiry (omega arith) understood.1 refl refl

poll_read_decrypted_2022_total_example :
    (a : Answer toy accepting) × (poll_read_decrypted toy accepting primitives 1000 4 server
      ≡ some a)
poll_read_decrypted_2022_total_example = poll_read_decrypted_2022_total primitives 1000 4 server

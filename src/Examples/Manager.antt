-- ===== src/Examples/Manager.antt =====
-- Theorem instances for crates/shadowsocks/src/manager/protocol.rs, with ports written in unary for
-- the JSON of a port, and no JSON for server configurations.
use mobile_android_obfuscati.Common.{
  ℕ, zero, suc, ◌==◌, ◌≡◌, refl, ap, arith, List, [], ◌∷◌, ◌++◌, Option, none, some, if◌then◌else◌,
  ok,
}
use mobile_android_obfuscati.Common.Strings.{bytes}
use mobile_android_obfuscati.Manager.Protocol.{Json, write_command}
use mobile_android_obfuscati.Manager.AddRequest.{ServerConfig}
use mobile_android_obfuscati.Manager.RemoveRequest
use mobile_android_obfuscati.Manager.RemoveRequest.{RemoveRequest}
use mobile_android_obfuscati.Manager.ManagerRequest.{ManagerRequest, Jsons, to_bytes, from_bytes}
use mobile_android_obfuscati.Manager.ManagerRequest.RoundTrip.{manager_request_roundtrip}

abbrev ones : ℕ → List ℕ
ones zero = []
ones (suc n) = b'1' ∷ ones n

abbrev count_ones : List ℕ → ℕ
count_ones [] = 0
count_ones (b ∷ buf) = let n = count_ones buf in if b == b'1' then suc n else n

count_ones-ones : (n : ℕ) → count_ones (ones n ++ b'\n' ∷ []) ≡ n
count_ones-ones zero = refl
count_ones-ones (suc n) = ap suc (count_ones-ones n)

read_line :
    (a : RemoveRequest) (v : List ℕ)
    → some (ones a.server_port) ≡ some v
    → count_ones (v ++ b'\n' ∷ []) ≡ a.server_port
read_line a v h = let c = count_ones-ones a.server_port in ground arith

abbrev unary : Json RemoveRequest
unary = record {
  to_vec = λ a. some (ones a.server_port);
  from_slice = λ buf. some (record { server_port = count_ones buf });
  from_slice-line = λ a v h. ap (λ n. some (record { server_port = n })) (read_line a v h);
  from_slice-spaced_line = λ a v h. ap (λ n. some (record { server_port = n })) (read_line a v h);
}

never_written : {A : Type 0} {x y : Option A} (v : List ℕ) → none ≡ some v → x ≡ y
never_written v h = absurd (ground arith)

abbrev unwritten : Json ServerConfig
unwritten = record {
  to_vec = λ a. none;
  from_slice = λ buf. none;
  from_slice-line = λ a v h. never_written v h;
  from_slice-spaced_line = λ a v h. never_written v h;
}

abbrev jsons : Jsons
jsons = record { Stat = RemoveRequest; add = unwritten; remove = unary; stat = unary }

written :
    to_bytes jsons (ManagerRequest.remove (record { server_port = 3 })) ≡ ok (bytes "remove: 111\n")
unfolding to_bytes RemoveRequest.to_bytes write_command
written = refl

manager_request_roundtrip_example :
    from_bytes jsons (bytes "remove: 111\n")
    ≡ ok (ManagerRequest.remove (record { server_port = 3 }))
manager_request_roundtrip_example =
    manager_request_roundtrip jsons (ManagerRequest.remove (record { server_port = 3 }))
      (bytes "remove: 111\n") written

abbrev config : ServerConfig
config = record {
  server_port = 8388;
  password = bytes "pw";
  method = none;
  no_delay = none;
  plugin = none;
  plugin_opts = none;
  plugin_mode = none;
  mode = none;
  users = none;
}

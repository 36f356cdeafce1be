-- ===== src/Manager/ManagerRequest/RoundTrip.antt =====
-- Requests after a round trip, and `ManagerRequest` against the decoders of the single requests.
use mobile_android_obfuscati.Common.{
  ℕ, ◌≡◌, ◌↔◌, refl, arith, Option-cases, inl, inr, Bool-cases, subst, List, [], ◌∷◌, ◌++◌, some,
  ok,
}
use mobile_android_obfuscati.Common.Strings.{str_eq, str_eq→eq, trim}
use mobile_android_obfuscati.Common.Utf8.{is_utf8}
use mobile_android_obfuscati.Manager.Protocol.{
  Json, splitn, from_utf8, read_param, read_command, write_command,
}
use mobile_android_obfuscati.Common.Strings.{bytes}
use mobile_android_obfuscati.Manager.AddRequest
use mobile_android_obfuscati.Manager.RemoveRequest
use mobile_android_obfuscati.Manager.ListRequest
use mobile_android_obfuscati.Manager.PingRequest
use mobile_android_obfuscati.Manager.StatRequest
use mobile_android_obfuscati.Manager.ManagerRequest.{
  ManagerRequest, Jsons, to_bytes, from_bytes, read_request, no_param,
}

write_command-ok :
    {A : Type 0} (j : Json A) (name : List ℕ) (req : A) (buf : List ℕ)
    → write_command j name req ≡ ok buf
    → (v : List ℕ) × (j.to_vec req ≡ some v) × (name ++ b':' ∷ b' ' ∷ v ++ b'\n' ∷ [] ≡ buf)
unfolding write_command
write_command-ok j name req buf h = elim (Option-cases (j.to_vec req)) [
  | inl fails ↦ absurd (ground arith)
  | inr (v, is) ↦ (v, is, ground arith)
]

module _ (j : Jsons) where
  -- A request of which the JSON is written without an error is read back as the same request, white
  -- space and line end included.
  pub manager_request_roundtrip :
      (r : ManagerRequest j.Stat) (buf : List ℕ) → to_bytes j r ≡ ok buf → from_bytes j buf ≡ ok r
  unfolding to_bytes from_bytes read_request no_param read_param AddRequest.to_bytes
      RemoveRequest.to_bytes ListRequest.to_bytes PingRequest.to_bytes StatRequest.to_bytes
      write_command splitn from_utf8 is_utf8 trim str_eq
  manager_request_roundtrip (ManagerRequest.add req) buf h =
      let (v, is, eq) = write_command-ok j.add (bytes "add") req buf h in
      subst (λ b. from_bytes j b ≡ ok (ManagerRequest.add req)) eq
        (rw (j.add.from_slice-spaced_line req v is) refl)
  manager_request_roundtrip (ManagerRequest.remove req) buf h =
      let (v, is, eq) = write_command-ok j.remove (bytes "remove") req buf h in
      subst (λ b. from_bytes j b ≡ ok (ManagerRequest.remove req)) eq
        (rw (j.remove.from_slice-spaced_line req v is) refl)
  manager_request_roundtrip (ManagerRequest.list ListRequest.ListRequest.request) buf h =
      ground arith
  manager_request_roundtrip (ManagerRequest.ping PingRequest.PingRequest.request) buf h =
      ground arith
  manager_request_roundtrip (ManagerRequest.stat req) buf h =
      let (v, is, eq) = write_command-ok j.stat (bytes "stat") req buf h in
      subst (λ b. from_bytes j b ≡ ok (ManagerRequest.stat req)) eq
        (rw (j.stat.from_slice-spaced_line req v is) refl)

  -- `ManagerRequest` reads an `add` request exactly from the bytes from which `AddRequest` reads it.
  pub manager_request-add_iff :
      (buf : List ℕ) (req : AddRequest.ServerConfig)
      → (from_bytes j buf ≡ ok (ManagerRequest.add req))
        ↔ (AddRequest.from_bytes j.add buf ≡ ok req)
  unfolding from_bytes read_request no_param AddRequest.from_bytes read_command from_utf8
  manager_request-add_iff buf req = ground arith

-- The decoder of `ListRequest` takes the word alone, without the line end that is written.
pub list_request_iff :
    (buf : List ℕ)
    → (ListRequest.from_bytes buf ≡ ok ListRequest.ListRequest.request) ↔ (buf ≡ bytes "list")
unfolding ListRequest.from_bytes from_utf8
list_request_iff buf = (forward, λ eq. rw eq (unfold str_eq is_utf8 in refl))
  where
    forward : ListRequest.from_bytes buf ≡ ok ListRequest.ListRequest.request → buf ≡ bytes "list"
    forward h = elim (Bool-cases (str_eq buf (bytes "list"))) [
      | inl same ↦ str_eq→eq buf (bytes "list") same
      | inr other ↦ absurd (ground arith)
    ]

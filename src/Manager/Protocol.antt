-- ===== src/Manager/Protocol.antt =====
-- What the messages of crates/shadowsocks/src/manager/protocol.rs share: the error type, `splitn`, and
-- serde_json as a parameter.
use mobile_android_obfuscati.Common.{
  ℕ, ◌==◌, ◌≡◌, List, [], ◌∷◌, ◌++◌, if◌then◌else◌, Option, none, some, Result, ok, err, ◌>>=◌,
}
use mobile_android_obfuscati.Common.Strings.{str_eq, trim}
use mobile_android_obfuscati.Common.Utf8.{is_utf8}

pub data Error : Type 0 where
  json_error from_utf8_error missing_parameter redundant_parameter : Error
  unrecognized_command : List ℕ → Error

-- `serde_json::to_vec` and `serde_json::from_slice` at a type: what was written is read back, also
-- with the white space around it that the messages have.
pub record Json (A : Type 0) : Type 0 where
  pub to_vec : A → Option (List ℕ)
  pub from_slice : List ℕ → Option A
  pub from_slice-line :
      (a : A) (v : List ℕ) → to_vec a ≡ some v → from_slice (v ++ b'\n' ∷ []) ≡ some a
  pub from_slice-spaced_line :
      (a : A) (v : List ℕ) → to_vec a ≡ some v → from_slice (b' ' ∷ v ++ b'\n' ∷ []) ≡ some a

-- `struct ServerUserConfig`
pub record ServerUserConfig : Type 0 where
  pub name : List ℕ
  pub password : List ℕ

-- `buf.splitn(2, |b| *b == b':')`: the first part, and the second if there is one.
unfoldable pub splitn : List ℕ → List ℕ × Option (List ℕ)
splitn [] = ([], none)
splitn (b ∷ buf) =
    let rest = splitn buf in if b == b':' then ([], some buf) else (b ∷ rest.0, rest.1)

-- `str::from_utf8`
unfoldable pub from_utf8 : List ℕ → Result Error (List ℕ)
from_utf8 buf = if is_utf8 buf then ok buf else err Error.from_utf8_error

module _ {A : Type 0} (j : Json A) where
  -- `match nsplit.next()` of the messages with a parameter.
  unfoldable pub read_param : Option (List ℕ) → Result Error A
  read_param none = err Error.missing_parameter
  read_param (some param) = elim (j.from_slice param) [
    | none ↦ err Error.json_error
    | some req ↦ ok req
  ]

  -- `from_bytes` of the messages that are a command with a parameter.
  unfoldable pub read_command : List ℕ → List ℕ → Result Error A
  read_command name buf =
      let parts = splitn buf in
      from_utf8 parts.0 >>= λ cmd.
      if str_eq (trim cmd) name
      then read_param parts.1
      else err (Error.unrecognized_command (trim cmd))

  -- `to_bytes` of the messages that are a command with a parameter.
  unfoldable pub write_command : List ℕ → A → Result Error (List ℕ)
  write_command name req = elim (j.to_vec req) [
    | none ↦ err Error.json_error
    | some v ↦ ok (name ++ b':' ∷ b' ' ∷ v ++ b'\n' ∷ [])
  ]

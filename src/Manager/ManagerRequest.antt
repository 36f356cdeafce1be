-- ===== src/Manager/ManagerRequest.antt =====
-- `enum ManagerRequest` of crates/shadowsocks/src/manager/protocol.rs: the requests that a manager
-- server reads.
pub mod RoundTrip
use mobile_android_obfuscati.Common.{
  ℕ, List, if◌then◌else◌, Option, none, some, Result, ok, err, ◌>>=◌,
}
use mobile_android_obfuscati.Common.Strings.{str_eq, trim}
use mobile_android_obfuscati.Manager.Protocol.{Error, Json, splitn, from_utf8, read_param}
use mobile_android_obfuscati.Common.Strings.{bytes}
use mobile_android_obfuscati.Manager.AddRequest
use mobile_android_obfuscati.Manager.AddRequest.{ServerConfig}
use mobile_android_obfuscati.Manager.RemoveRequest
use mobile_android_obfuscati.Manager.RemoveRequest.{RemoveRequest}
use mobile_android_obfuscati.Manager.ListRequest
use mobile_android_obfuscati.Manager.ListRequest.{ListRequest}
use mobile_android_obfuscati.Manager.PingRequest
use mobile_android_obfuscati.Manager.PingRequest.{PingRequest}
use mobile_android_obfuscati.Manager.StatRequest

pub data ManagerRequest (Stat : Type 0) : Type 0 where
  add : ServerConfig → ManagerRequest Stat
  remove : RemoveRequest → ManagerRequest Stat
  list : ListRequest → ManagerRequest Stat
  ping : PingRequest → ManagerRequest Stat
  stat : Stat → ManagerRequest Stat

-- The branch of a request without a parameter.
unfoldable pub no_param : {A : Type 0} → A → Option (List ℕ) → Result Error A
no_param req none = ok req
no_param req (some param) = err Error.redundant_parameter

-- `serde_json` at the types of the parameters, and the statistics.
pub record Jsons : Type 1 where
  pub Stat : Type 0
  pub add : Json ServerConfig
  pub remove : Json RemoveRequest
  pub stat : Json Stat

module _ (j : Jsons) where
  unfoldable pub to_bytes : ManagerRequest j.Stat → Result Error (List ℕ)
  to_bytes (ManagerRequest.add req) = AddRequest.to_bytes j.add req
  to_bytes (ManagerRequest.remove req) = RemoveRequest.to_bytes j.remove req
  to_bytes (ManagerRequest.list req) = ListRequest.to_bytes req
  to_bytes (ManagerRequest.ping req) = PingRequest.to_bytes req
  to_bytes (ManagerRequest.stat req) = StatRequest.to_bytes j.stat req

  -- The `match` on the trimmed command.
  unfoldable pub read_request : List ℕ → Option (List ℕ) → Result Error (ManagerRequest j.Stat)
  read_request cmd param =
      if str_eq cmd (bytes "add")
      then (read_param j.add param >>= λ req. ok (ManagerRequest.add req))
      else if str_eq cmd (bytes "remove")
      then (read_param j.remove param >>= λ req. ok (ManagerRequest.remove req))
      else if str_eq cmd (bytes "list")
      then no_param (ManagerRequest.list ListRequest.request) param
      else if str_eq cmd (bytes "ping")
      then no_param (ManagerRequest.ping PingRequest.request) param
      else if str_eq cmd (bytes "stat")
      then (read_param j.stat param >>= λ req. ok (ManagerRequest.stat req))
      else err (Error.unrecognized_command cmd)

  unfoldable pub from_bytes : List ℕ → Result Error (ManagerRequest j.Stat)
  from_bytes buf =
      let parts = splitn buf in from_utf8 parts.0 >>= λ cmd. read_request (trim cmd) parts.1

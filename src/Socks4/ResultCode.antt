-- ===== src/Socks4/ResultCode.antt =====
-- `enum ResultCode` of crates/shadowsocks-service/src/local/socks/socks4.rs.
use mobile_android_obfuscati.Common.{ℕ, ◌==◌, if◌then◌else◌}

pub data ResultCode : Type 0 where
  request_granted request_rejected_or_failed : ResultCode
  request_rejected_cannot_connect request_rejected_different_user_id : ResultCode
  other : ℕ → ResultCode

unfoldable pub as_u8 : ResultCode → ℕ
as_u8 ResultCode.request_granted = 90
as_u8 ResultCode.request_rejected_or_failed = 91
as_u8 ResultCode.request_rejected_cannot_connect = 92
as_u8 ResultCode.request_rejected_different_user_id = 93
as_u8 (ResultCode.other c) = c

unfoldable pub from_u8 : ℕ → ResultCode
from_u8 code =
    if code == 90
    then ResultCode.request_granted
    else if code == 91
    then ResultCode.request_rejected_or_failed
    else if code == 92
    then ResultCode.request_rejected_cannot_connect
    else if code == 93
    then ResultCode.request_rejected_different_user_id
    else ResultCode.other code

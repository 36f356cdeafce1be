-- ===== src/Socks5/Reply.antt =====
-- `enum Reply` of crates/shadowsocks/src/relay/socks5.rs.
pub mod Codes
use mobile_android_obfuscati.Common.{ℕ, ◌==◌, if◌then◌else◌}

pub data Reply : Type 0 where
  succeeded general_failure connection_not_allowed network_unreachable host_unreachable : Reply
  connection_refused ttl_expired command_not_supported address_type_not_supported : Reply
  other_reply : ℕ → Reply

unfoldable pub as_u8 : Reply → ℕ
as_u8 Reply.succeeded = 0x00
as_u8 Reply.general_failure = 0x01
as_u8 Reply.connection_not_allowed = 0x02
as_u8 Reply.network_unreachable = 0x03
as_u8 Reply.host_unreachable = 0x04
as_u8 Reply.connection_refused = 0x05
as_u8 Reply.ttl_expired = 0x06
as_u8 Reply.command_not_supported = 0x07
as_u8 Reply.address_type_not_supported = 0x08
as_u8 (Reply.other_reply c) = c

unfoldable pub from_u8 : ℕ → Reply
from_u8 code =
    if code == 0x00
    then Reply.succeeded
    else if code == 0x01
    then Reply.general_failure
    else if code == 0x02
    then Reply.connection_not_allowed
    else if code == 0x03
    then Reply.network_unreachable
    else if code == 0x04
    then Reply.host_unreachable
    else if code == 0x05
    then Reply.connection_refused
    else if code == 0x06
    then Reply.ttl_expired
    else if code == 0x07
    then Reply.command_not_supported
    else if code == 0x08
    then Reply.address_type_not_supported
    else Reply.other_reply code

-- ===== src/Socks5/Error.antt =====
-- `enum Error` of crates/shadowsocks/src/relay/socks5.rs, and the reply that answers it.
use mobile_android_obfuscati.Common.{ℕ, IoErrorKind}
use mobile_android_obfuscati.Socks5.Reply.{Reply}

pub data Error : Type 0 where
  io_error : IoErrorKind → Error
  address_type_not_supported : ℕ → Error
  address_domain_invalid_encoding : Error
  unsupported_socks_version : ℕ → Error
  unsupported_command : ℕ → Error
  unsupported_passwd_auth_version : ℕ → Error
  passwd_auth_invalid_request : Error
  reply : Reply → Error

-- What `?` makes of the error of a `read_exact` that meets the end of the stream.
abbrev pub eof : Error
eof = Error.io_error IoErrorKind.unexpected_eof

unfoldable pub as_reply : Error → Reply
as_reply (Error.io_error IoErrorKind.connection_refused) = Reply.connection_refused
as_reply (Error.io_error IoErrorKind.unexpected_eof) = Reply.general_failure
as_reply (Error.io_error IoErrorKind.other_kind) = Reply.general_failure
as_reply (Error.address_type_not_supported t) = Reply.address_type_not_supported
as_reply Error.address_domain_invalid_encoding = Reply.general_failure
as_reply (Error.unsupported_socks_version v) = Reply.general_failure
as_reply (Error.unsupported_command c) = Reply.command_not_supported
as_reply (Error.unsupported_passwd_auth_version v) = Reply.general_failure
as_reply Error.passwd_auth_invalid_request = Reply.general_failure
as_reply (Error.reply r) = r

-- `consts::SOCKS5_VERSION`
abbrev pub socks5_version : ℕ
socks5_version = 0x05

-- ===== src/Socks4/Error.antt =====
-- `enum Error` of crates/shadowsocks-service/src/local/socks/socks4.rs.
use mobile_android_obfuscati.Common.{ℕ, IoErrorKind}
use mobile_android_obfuscati.Socks4.ResultCode.{ResultCode}

pub data Error : Type 0 where
  io_error : IoErrorKind → Error
  address_host_invalid_encoding : Error
  unsupported_socks_version : ℕ → Error
  unsupported_command : ℕ → Error
  result : ResultCode → Error

-- What `?` makes of a stream that ends.
abbrev pub eof : Error
eof = Error.io_error IoErrorKind.unexpected_eof

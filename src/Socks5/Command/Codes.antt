-- ===== src/Socks5/Command/Codes.antt =====
-- The command codes of SOCKS5 in both directions.
use mobile_android_obfuscati.Common.{ℕ, ◌≡◌, ◌↔◌, arith, some}
use mobile_android_obfuscati.Socks5.Command.{Command, as_u8, from_u8}

-- A code byte decodes to a command exactly if it is the command's code.
pub from_u8_iff : (code : ℕ) (cmd : Command) → (from_u8 code ≡ some cmd) ↔ (as_u8 cmd ≡ code)
unfolding as_u8 from_u8
from_u8_iff code cmd = ground arith

-- ===== src/Socks5/Reply/Codes.antt =====
-- The reply codes of SOCKS5 in both directions.
use mobile_android_obfuscati.Common.{ℕ, ◌≡◌, arith, refl}
use mobile_android_obfuscati.Common.{◌<◌}
use mobile_android_obfuscati.Socks5.Reply.{Reply, as_u8, from_u8}

-- Every code byte survives decoding and encoding.
pub as_u8-from_u8 : (code : ℕ) → as_u8 (from_u8 code) ≡ code
unfolding as_u8 from_u8
as_u8-from_u8 code = ground arith

-- Decoding gives back each reply that has a name, and `other_reply` exactly above the named codes.
pub from_u8-as_u8 :
    (r : Reply) → ((c : ℕ) → r ≡ Reply.other_reply c → 8 < c) → from_u8 (as_u8 r) ≡ r
unfolding as_u8 from_u8
from_u8-as_u8 (Reply.other_reply c) h = ground (arith, h c refl)
from_u8-as_u8 _ h = refl

-- ===== src/Socks5/PasswdAuthResponse/Truncated.antt =====
-- A response that is cut off.
use mobile_android_obfuscati.Common.{ℕ, ◌<◌, ◌≡◌, ◌≢◌, refl, arith, length}
use mobile_android_obfuscati.Common.{List, [], ◌∷◌, ok, err}
use mobile_android_obfuscati.Socks5.Error.{eof}
use mobile_android_obfuscati.Socks5.PasswdAuthResponse.{read_from}

-- On a response of fewer than two bytes the buffer decides: where the failed read leaves the version byte
-- in it, the response is accepted with the status that happens to stand there.
pub passwd_auth_response_truncated :
    (left : List ℕ → List ℕ) (r : List ℕ) (status : ℕ)
    → length r < 2
    → left r ≡ 1 ∷ status ∷ []
    → read_from left r ≡ ok (record { status = status }, [])
unfolding read_from
passwd_auth_response_truncated left [] status short e = rw e refl
passwd_auth_response_truncated left (b ∷ []) status short e = rw e refl
passwd_auth_response_truncated left (a ∷ b ∷ r) status short e = absurd (omega arith)

-- No input makes `read_from` report the end of the stream.
pub read_from-ne-eof : (left : List ℕ → List ℕ) (r : List ℕ) → read_from left r ≢ err eof
unfolding read_from
read_from-ne-eof left (a ∷ b ∷ r) = ground arith
read_from-ne-eof left _ = ground arith

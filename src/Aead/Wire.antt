-- ===== src/Aead/Wire.antt =====
-- The AEAD stream format: after the salt, each chunk as an encrypted length and the encrypted data.
use mobile_android_obfuscati.Common.{ℕ, ◌≡◌, refl, List, [], ◌∷◌, ◌++◌, length}
use mobile_android_obfuscati.Common.Bytes.{be_bytes}
use mathlib.Core.List.{append_assoc}
use mobile_android_obfuscati.Aead.Cipher.{Aead}

module _ (e : Aead) where
  -- A chunk, and the cipher after it.
  abbrev pub packet : e.Cipher → List ℕ → List ℕ × e.Cipher
  packet c p =
      let (length_part, c1) = e.encrypt_packet c (be_bytes (length p)) in
      let (data_part, c2) = e.encrypt_packet c1 p in (length_part ++ data_part, c2)

  abbrev pub wire : e.Cipher → List (List ℕ) → List ℕ
  wire c [] = []
  wire c (p ∷ ps) = (packet c p).0 ++ wire (packet c p).1 ps

  abbrev pub after : e.Cipher → List (List ℕ) → e.Cipher
  after c [] = c
  after c (p ∷ ps) = after (packet c p).1 ps

  pub wire-append :
      (c : e.Cipher) (ps qs : List (List ℕ)) → wire c (ps ++ qs) ≡ wire c ps ++ wire (after c ps) qs
  wire-append c [] qs = refl
  wire-append c (p ∷ ps) qs =
      rw
        (wire-append (packet c p).1 ps qs, ← append_assoc (packet c p).0 (wire (packet c p).1 ps) _)

  pub after-append :
      (c : e.Cipher) (ps qs : List (List ℕ)) → after c (ps ++ qs) ≡ after (after c ps) qs
  after-append c [] qs = refl
  after-append c (p ∷ ps) qs = after-append (packet c p).1 ps qs

-- What the chunks carry.
abbrev pub concat : List (List ℕ) → List ℕ
concat [] = []
concat (p ∷ ps) = p ++ concat ps

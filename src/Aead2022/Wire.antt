-- ===== src/Aead2022/Wire.antt =====
-- The stream format of AEAD 2022: the salt, the identity headers, the header, the data of the first chunk,
-- and the other chunks as in the AEAD streams.
use mathlib.Core.List.{append_assoc, append-nil}
use mobile_android_obfuscati.Common.{
  ℕ, ◌≤◌, ◌<◌, ◌≡◌, refl, ap, ◌∙◌, sym, arith, List, [], ◌∷◌, ◌++◌, length, All, Option,
}
use mobile_android_obfuscati.Common.Bytes.{be_bytes}
use mobile_android_obfuscati.Aead.Cipher.{Aead}
use mobile_android_obfuscati.Aead.Wire.{wire, after, wire-append, after-append}
use mobile_android_obfuscati.Aead2022.Identity.{Method, Primitives}
use mobile_android_obfuscati.Aead2022.Header.{StreamType}
use mobile_android_obfuscati.Aead2022.Handshake.Agrees.Keys.{identities, header_bytes}
use mobile_android_obfuscati.Aead2022.Writer.{max_packet_size}

-- What a stream starts from.
pub record Opening : Type 0 where
  pub ty : StreamType
  pub method : Method
  pub key : List ℕ
  pub identity_keys : List (List ℕ)
  pub nonce : List ℕ
  pub time : ℕ
  pub request_salt : Option (List ℕ)

abbrev pub AreShort : List (List ℕ) → Type 0
AreShort ps = All (λ p. length p ≤ max_packet_size) ps

module _ (e : Aead) (b : Primitives) where
  -- The header for a first chunk of `n` bytes, and the cipher after it.
  abbrev pub header_of : Opening → ℕ → List ℕ × e.Cipher
  header_of o n =
      header_bytes e b o.ty o.method o.key o.identity_keys o.nonce o.time o.request_salt n

  -- The bytes of a stream of so many chunks, and the cipher after them.
  abbrev pub transcript : Opening → List (List ℕ) → List ℕ × e.Cipher
  transcript o [] =
      (o.nonce ++ identities b o.ty o.method o.key o.nonce o.identity_keys, e.new o.key o.nonce)
  transcript o (p ∷ ps) =
      let (header, c1) = header_of o (length p) in
      let (data_part, c2) = e.encrypt_packet c1 p in
      (header ++ (data_part ++ wire e c2 ps), after e c2 ps)

  pub transcript-append :
      (o : Opening) (chunks : List (List ℕ)) (q : List ℕ)
      → 0 < length chunks
      → let (length_part, c1) = e.encrypt_packet (transcript o chunks).1 (be_bytes (length q)) in
        let (data_part, c2) = e.encrypt_packet c1 q in
        transcript o (chunks ++ q ∷ [])
        ≡ ((transcript o chunks).0 ++ (length_part ++ data_part), c2)
  transcript-append o [] q some_chunks = absurd (omega arith)
  transcript-append o (p ∷ ps) q some_chunks =
      let h = header_of o (length p) in
      let d = e.encrypt_packet h.1 p in
      let last = wire e (after e d.1 ps) (q ∷ []) in
      let all : h.0 ++ (d.0 ++ wire e d.1 (ps ++ q ∷ []))
          ≡ (h.0 ++ (d.0 ++ wire e d.1 ps)) ++ last =
        ap (λ t. h.0 ++ (d.0 ++ t)) (wire-append e d.1 ps (q ∷ []))
        ∙ ap (λ t. h.0 ++ t) (sym (append_assoc d.0 (wire e d.1 ps) last))
        ∙ sym (append_assoc h.0 (d.0 ++ wire e d.1 ps) last) in
      rw (all, after-append e d.1 ps (q ∷ []), append-nil) refl

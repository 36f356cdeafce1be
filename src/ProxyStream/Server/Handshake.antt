-- ===== src/ProxyStream/Server/Handshake.antt =====
-- The handshake of a server on the first packet of a client.
use mathlib.Core.List.{append_assoc}
use mobile_android_obfuscati.Common.{
  ℕ, ◌-◌, ◌%◌, ◌≡◌, ◌==◌, leb, Bool, true, false, refl, ap, ◌∙◌, arith, List, [], ◌∷◌, ◌++◌, length,
  length-append, if◌then◌else◌,
}
use mobile_android_obfuscati.Common.{ok, err, ◌>>=◌, IoErrorKind}
use mobile_android_obfuscati.Common.Bytes.{be_bytes}
use mobile_android_obfuscati.Aead.Wire.{concat}
use mobile_android_obfuscati.Socks5.Address.{Address}
use mobile_android_obfuscati.Socks5.Address.RoundTrip.{
  IsWire, encoding, write_to_buf-encoding, read_from-encoding,
}
use mobile_android_obfuscati.ProxyStream.Protocol.{
  CipherCategory, TcpRequestHeader, stream_read_from, aead_2022_read_from, read_from,
  get_aead_2022_padding_size,
}
use mobile_android_obfuscati.ProxyStream.Client.{make_first_packet_buffer}
use mobile_android_obfuscati.ProxyStream.Client.FirstPacket.{aead_2022_read_from-bytes, joined}
use mobile_android_obfuscati.ProxyStream.Server.{chunk_remaining, check_padding, handshake}

-- A client of AEAD 2022 that has neither a payload nor a padding.
abbrev pub is_bare : CipherCategory → List ℕ → ℕ → Bool
is_bare CipherCategory.aead_2022 [] random = random % 900 == 0
is_bare _ _ random = false

-- The first chunk, of which `header` is read.
chunk_remaining-first :
    (header payload tail : List ℕ) (more : List (List ℕ))
    → chunk_remaining 0
        ((header ++ payload) ∷ more)
        (length ((header ++ payload) ++ tail) - length (payload ++ tail))
      ≡ (1, length payload)
chunk_remaining-first header payload tail more =
    let consumed : length ((header ++ payload) ++ tail) - length (payload ++ tail) ≡ length header =
      omega (
        arith,
        length-append (header ++ payload) tail,
        length-append header payload,
        length-append payload tail,
      ) in
    let fits : leb (length header) (length (header ++ payload)) ≡ true =
      ground (arith, length-append header payload) in
    let left : length (header ++ payload) - length header ≡ length payload =
      omega (arith, length-append header payload) in
    rw (consumed, fits, left) refl

-- A header without a padding is followed by the payload, or refused.
check_padding-bare :
    (addr : Address) (payload : List ℕ) (random : ℕ)
    → let n = get_aead_2022_padding_size payload random in
      check_padding
        (TcpRequestHeader.aead_2022 (record { addr = addr; padding_size = n }))
        (1, length payload)
      ≡ (if is_bare CipherCategory.aead_2022 payload random
          then err IoErrorKind.other_kind
          else ok tt)
unfolding get_aead_2022_padding_size
check_padding-bare addr [] random = ground arith
check_padding-bare addr (b ∷ payload) random = ground arith

after_check :
    {A : Type 0} (bare : Bool) (answer : A)
    → ◌>>=◌ {B = A}
        (if bare then err IoErrorKind.other_kind else ok tt)
        (λ (_ : Unit {0}). ok answer)
      ≡ (if bare then err IoErrorKind.other_kind else ok answer)
after_check true answer = refl
after_check false answer = refl

-- A stream that starts with a chunk of an address and a payload under a method before AEAD 2022.
stream_handshake :
    (addr : Address) (payload tail : List ℕ)
    → IsWire addr
    → stream_read_from ((encoding addr ++ payload) ++ tail)
      ≡ ok (record { addr = addr }, payload ++ tail)
unfolding stream_read_from
stream_handshake addr payload tail w =
    rw (append_assoc (encoding addr) payload tail, read_from-encoding addr (payload ++ tail) w) refl

module _ (addr : Address) (payload : List ℕ) (random : ℕ) (padding : List ℕ)
    (more : List (List ℕ)) where
  -- A server whose reader has the first packet of a client as its first chunk gets the address, and the
  -- payload and the other chunks are left to be read; but under AEAD 2022 it refuses a client that has
  -- no payload and for which a padding of no bytes was drawn, which happens if the random number is a
  -- multiple of 900. The address has an encoding and the padding its size.
  pub handshake-make_first_packet_buffer :
      (category : CipherCategory)
      → IsWire addr
      → length padding ≡ get_aead_2022_padding_size payload random
      → (packet : List ℕ) × (make_first_packet_buffer category addr payload random padding
          ≡ ok packet)
        × (handshake category (packet ∷ more) false ≡ (
          if is_bare category payload random
              then err IoErrorKind.other_kind
              else ok (addr, payload ++ concat more),
          true,
        ))
  unfolding make_first_packet_buffer handshake read_from
  handshake-make_first_packet_buffer CipherCategory.plain w size = (
    encoding addr ++ payload,
    rw (write_to_buf-encoding {E = IoErrorKind} addr [] w) refl,
    rw (stream_handshake addr payload (concat more) w) refl,
  )
  handshake-make_first_packet_buffer CipherCategory.stream w size = (
    encoding addr ++ payload,
    rw (write_to_buf-encoding {E = IoErrorKind} addr [] w) refl,
    rw (stream_handshake addr payload (concat more) w) refl,
  )
  handshake-make_first_packet_buffer CipherCategory.aead w size = (
    encoding addr ++ payload,
    rw (write_to_buf-encoding {E = IoErrorKind} addr [] w) refl,
    rw (stream_handshake addr payload (concat more) w) refl,
  )
  handshake-make_first_packet_buffer CipherCategory.aead_2022 w size =
      let n = get_aead_2022_padding_size payload random in
      let tail = concat more in
      let header = (encoding addr ++ be_bytes n) ++ padding in
      let whole : (header ++ payload) ++ tail
          ≡ encoding addr ++ (be_bytes n ++ (padding ++ (payload ++ tail))) =
        append_assoc header payload tail
        ∙ joined (encoding addr) (be_bytes n) padding (payload ++ tail) in
      let reads : aead_2022_read_from ((header ++ payload) ++ tail)
          ≡ ok (record { addr = addr; padding_size = n }, payload ++ tail) =
        ap aead_2022_read_from whole
        ∙ aead_2022_read_from-bytes addr n padding (payload ++ tail) w size in
      let answer : Address × List ℕ = (addr, payload ++ tail) in
      let checked : ◌>>=◌ {B = Address × List ℕ}
            (check_padding (TcpRequestHeader.aead_2022 (record { addr = addr; padding_size = n })) (
              chunk_remaining 0 ((header ++ payload) ∷ more)
                (length ((header ++ payload) ++ tail) - length (payload ++ tail))))
            (λ (_ : Unit {0}). ok answer)
          ≡ (if is_bare CipherCategory.aead_2022 payload random
              then err IoErrorKind.other_kind
              else ok answer) =
        rw (chunk_remaining-first header payload tail more, check_padding-bare addr payload random)
          (after_check (is_bare CipherCategory.aead_2022 payload random) answer) in
      (
        header ++ payload,
        rw (write_to_buf-encoding {E = IoErrorKind} addr [] w) refl,
        rw reads (ap (λ r. (r, true)) checked),
      )

-- ===== src/Aead2022/Handshake/Agrees.antt =====
-- The two ends of a stream of AEAD 2022 agree on what the header says.
pub mod Keys
pub mod Opens
use mathlib.Core.List.{append_assoc}
use mobile_android_obfuscati.Common.{
  ℕ, ◌+◌, ◌^◌, ◌≤◌, ◌<◌, ◌≡◌, ◌⊎◌, inl, inr, refl, sym, ap, ◌∙◌, arith, ltb, le→ltb, Bool, true,
  false, List, [], ◌∷◌, ◌++◌, length, take, drop, length-append, length-take, take-append-drop,
  if◌then◌else◌, Option, none, some, take-length_append, drop-length_append,
}
use mobile_android_obfuscati.Common.{ok}
use mobile_android_obfuscati.Aead.Async.{Poll}
use mobile_android_obfuscati.Aead.Cipher.{Aead, NonceCheck}
use mobile_android_obfuscati.Aead2022.Identity.{
  Method, method_support_eih, Primitives, ServerUser, ServerUserManager, get_user_by_hash,
}
use mobile_android_obfuscati.Aead2022.Header.{
  StreamType, abs_diff, request_salt_len, parse_header, make_header,
}
use mobile_android_obfuscati.Aead2022.Header.RoundTrip.{peer, SaltFits, parse_header-make_header}
use mobile_android_obfuscati.Aead2022.Connection.{Connection}
use mobile_android_obfuscati.Aead2022.Handshake.{
  require_eih, overwrite, identity_key_len, found_user, get_user, identify, check_nonce, check_salt,
  accept_header, open_header, read_whole_header,
}
use mobile_android_obfuscati.Aead2022.Writer.{make_eih, identity_headers, sends_identities}
use mobile_android_obfuscati.Aead2022.Handshake.Agrees.Keys.{
  identities, KeysAgree, identity_block, length-make_eih, length-identities, header_bytes,
}
use mobile_android_obfuscati.Aead2022.Handshake.Agrees.Opens.{
  SaltIsNew, Opened, still_new, open_header-Opened,
}

module _ {e : Aead} {c : NonceCheck} (b : Primitives) (now : ℕ) where
  -- What the reader knows after the identity header.
  record Identified (key : List ℕ) (x y : Connection e c) : Type 0 where
    user_key_is : y.reader.user_key ≡ (
        if require_eih x.reader.stream_ty x.reader.method x.reader.user_manager
        then some key
        else x.reader.user_key)
    context_is : y.context ≡ x.context
    stream_is : y.stream ≡ x.stream

  asked :
      (ty : StreamType) (method : Method) (users : Option ServerUserManager) (x : Connection e c)
      → x.reader.stream_ty ≡ peer ty
      → x.reader.method ≡ method
      → x.reader.user_manager ≡ users
      → require_eih x.reader.stream_ty x.reader.method x.reader.user_manager
        ≡ require_eih (peer ty) method users
  asked ty method users x st me us =
      ap (λ t. require_eih t x.reader.method x.reader.user_manager) st
      ∙ ap (λ t. require_eih (peer ty) t x.reader.user_manager) me
      ∙ ap (require_eih (peer ty) method) us

  identify-Identified :
      (ty : StreamType) (method : Method) (key : List ℕ) (ids : List (List ℕ)) (reader_key : List ℕ)
      (users : Option ServerUserManager) (nonce rest : List ℕ) (x : Connection e c)
      → KeysAgree b ty method key ids reader_key users
      → x.reader.stream_ty ≡ peer ty
      → x.reader.method ≡ method
      → x.reader.user_manager ≡ users
      → (y : Connection e c) × (identify e c b now reader_key nonce
            (identities b ty method key nonce ids ++ rest)
            x
          ≡ (Poll.ready (ok key), y))
        × Identified key x y
  unfolding identify
  identify-Identified ty method key _ _ _ nonce rest x (KeysAgree.shared users plain) st me us =
      let asks = asked ty method users x st me us ∙ plain in
      (x, rw asks refl, record { user_key_is = rw asks refl; context_is = refl; stream_is = refl })
  identify-Identified ty method key _ _ _ nonce rest x
        (KeysAgree.identified reader_key users user is supports found has) st me us =
      let asks : require_eih x.reader.stream_ty x.reader.method x.reader.user_manager ≡ true =
        asked ty method (some users) x st me us
        ∙ ap (λ t. require_eih (peer t) method (some users)) is
        ∙ supports in
      let sub_key = b.derive_key (reader_key ++ nonce) in
      let eih = make_eih b method sub_key key in
      let block : identities b ty method key nonce (reader_key ∷ []) ≡ eih =
        ap (λ t. identities b t method key nonce (reader_key ∷ [])) is
        ∙ identity_block b method key reader_key nonce supports in
      let whole = length-make_eih b method sub_key key in
      let enough : ltb (length (eih ++ rest)) 16 ≡ false =
        le→ltb (length (eih ++ rest)) 16 (omega (arith, length-append eih rest)) in
      let front : take 16 (eih ++ rest) ≡ eih =
        ap (λ n. take n (eih ++ rest)) (sym whole) ∙ take-length_append eih rest in
      let hashed : b.decrypt_block x.reader.method (take (identity_key_len x.reader.method) sub_key)
            (take 16 (eih ++ rest))
          ≡ take 16 (b.hash key) =
        ap (λ m. b.decrypt_block m (take (identity_key_len m) sub_key) (take 16 (eih ++ rest))) me
        ∙ ap (b.decrypt_block method (take (identity_key_len method) sub_key)) front
        ∙ unfold make_eih in
          b.decrypt-encrypt_block method (take (identity_key_len method) sub_key)
            (take 16 (b.hash key))
            (omega (arith, length-take 16 (b.hash key), b.length-hash key)) in
      let y = record x { reader = record x.reader { user_key = some user.key } } in
      let known : get_user e c b now (take 16 (b.hash key)) x.reader.user_manager x
          ≡ (Poll.ready (ok key), y) =
        ap (λ t. get_user e c b now (take 16 (b.hash key)) t x) us
        ∙ ap (λ t. found_user e c b now (take 16 (b.hash key)) t x) found
        ∙ ap (λ k. (Poll.ready (ok k), y)) has in
      (
        y,
        rw (block, asks, enough, hashed) known,
        record { user_key_is = rw asks (ap some has); context_is = refl; stream_is = refl },
      )

  -- A reader at the other end of a writer.
  pub record Matches (ty : StreamType) (method : Method) (users : Option ServerUserManager)
      (x : Connection e c) : Type 0 where
    pub stream_type_is : x.reader.stream_ty ≡ peer ty
    pub method_is : x.reader.method ≡ method
    pub users_are : x.reader.user_manager ≡ users

  -- The reader takes the header for what the writer has put into it: it goes on with the cipher of the
  -- writer, and has the salt, the salt of the request and the key of the user.
  pub record Understood (key nonce : List ℕ) (request_salt : Option (List ℕ)) (cipher : e.Cipher)
      (x y : Connection e c) : Type 0 where
    pub cipher_is : y.reader.cipher ≡ some cipher
    pub salt_is : y.reader.salt ≡ some nonce
    pub request_salt_is : (request_salt ≡ none) ⊎ (y.reader.request_salt ≡ request_salt)
    pub user_key_is : y.reader.user_key ≡ (
        if require_eih x.reader.stream_ty x.reader.method x.reader.user_manager
        then some key
        else x.reader.user_key)
    pub stream_is : y.stream ≡ x.stream

  -- Where the keys and the salts agree, the clocks are at most 30 seconds apart, the first chunk has less
  -- than 65536 bytes and a server accepts the salt, a reader takes the header of the writer at the other
  -- end for what it says: it has the length of the chunk, goes on with the cipher of the writer, and
  -- knows the salt, the salt of the request, and the key of the user where there is an identity header.
  pub read_whole_header-Understood :
      (ty : StreamType) (method : Method) (key : List ℕ) (ids : List (List ℕ)) (reader_key : List ℕ)
      (users : Option ServerUserManager) (nonce : List ℕ) (time n : ℕ)
      (request_salt : Option (List ℕ)) (x : Connection e c)
      → KeysAgree b ty method key ids reader_key users
      → Matches ty method users x
      → length nonce ≡ e.salt_len
      → SaltFits ty e.salt_len request_salt
      → time < 2 ^ 64
      → abs_diff now time ≤ 30
      → n < 65536
      → SaltIsNew (peer ty) nonce x
      → let (h, next) = header_bytes e b ty method key ids nonce time request_salt n in
        (y : Connection e c) × (read_whole_header e c b now reader_key h x
          ≡ (Poll.ready (ok (some n)), y))
        × Understood key nonce request_salt next x y
  unfolding read_whole_header
  read_whole_header-Understood ty method key ids reader_key users nonce time n request_salt x keys
        same len fits small timely short new =
      let m = e.encrypt_packet (e.new key nonce) (make_header ty time request_salt n) in
      let h = (header_bytes e b ty method key ids nonce time request_salt n).0 in
      let eih = identities b ty method key nonce ids in
      let eih_len : ℕ =
        if require_eih x.reader.stream_ty x.reader.method x.reader.user_manager then 16 else 0 in
      let split : h ≡ nonce ++ (eih ++ m.0) = append_assoc nonce eih m.0 in
      let salt : take e.salt_len h ≡ nonce =
        ap (λ k. take k h) (sym len)
        ∙ ap (take (length nonce)) split
        ∙ take-length_append nonce (eih ++ m.0) in
      let chunk : drop e.salt_len h ≡ eih ++ m.0 =
        ap (λ k. drop k h) (sym len)
        ∙ ap (drop (length nonce)) split
        ∙ drop-length_append nonce (eih ++ m.0) in
      let asks : eih_len ≡ length eih =
        ap (λ (t : Bool). if t then 16 else 0)
          (asked ty method users x same.stream_type_is same.method_is same.users_are)
        ∙ sym (length-identities b nonce keys) in
      let rest : drop eih_len (eih ++ m.0) ≡ m.0 =
        ap (λ k. drop k (eih ++ m.0)) asks ∙ drop-length_append eih m.0 in
      let (x', found, known) =
        identify-Identified ty method key ids reader_key users nonce m.0 x keys same.stream_type_is
          same.method_is same.users_are in
      let (y, opens, opened) =
        open_header-Opened b now ty nonce (take (e.salt_len + eih_len) h) (e.new key nonce) time n
          request_salt x' fits small timely short
          (still_new b now (peer ty) nonce x x' known.context_is new) in
      (
        y,
        rw (salt, chunk, found, rest)
            (ap
                (λ t.
                  open_header e c b now t nonce (take (e.salt_len + eih_len) h) m.0
                    (e.new key nonce) x')
                same.stream_type_is
              ∙ opens),
        record {
          cipher_is = opened.cipher_is;
          salt_is = opened.salt_is;
          request_salt_is = opened.request_salt_is;
          user_key_is = opened.user_key_is ∙ known.user_key_is;
          stream_is = opened.stream_is ∙ known.stream_is;
        },
      )

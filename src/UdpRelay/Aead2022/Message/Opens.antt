-- ===== src/UdpRelay/Aead2022/Message/Opens.antt =====
-- What `encrypt_message` makes of a packet, `decrypt_message` opens.
use mobile_android_obfuscati.Common.{
  ℕ, ◌+◌, ◌-◌, ◌^◌, ◌≤◌, ◌<◌, ◌≡◌, refl, ap, ◌∙◌, arith, true, List, [], ◌∷◌, ◌++◌, length, take,
  drop, length-append, Option, none, take-length_append, drop-length_append,
}
use mobile_android_obfuscati.Common.{ok}
use mobile_android_obfuscati.Aead2022.Identity.{
  Method, method_support_eih, Primitives, ServerUser, ServerUserManager,
}
use mobile_android_obfuscati.UdpRelay.Aead2022.{
  get_nonce_len, encrypt_message, decrypt_aes, decrypt_message,
}
use mobile_android_obfuscati.UdpRelay.Aead2022.Cipher.{UdpCipher}
use mobile_android_obfuscati.UdpRelay.Aead2022.Message.{ids, length-ids, Identities}
use mobile_android_obfuscati.UdpRelay.Aead2022.Message.Plain.{take_behind, get_uint_left}
use mobile_android_obfuscati.UdpRelay.Aead2022.Message.Aes.{encrypt_aes_lem, aes-Opens}

module _ (u : UdpCipher) (b : Primitives) where
  -- The packet `enc` is read as the fields of `plain`, which stand in front of the tag in `packet`.
  pub record Opens (method : Method) (reader_key : List ℕ) (users : Option ServerUserManager)
      (user : Option ServerUser) (enc plain : List ℕ) : Type 0 where
    pub packet : List ℕ
    pub length_is : length enc ≡ length plain + u.tag_len
    pub opens : decrypt_message u b method reader_key enc users ≡ ok (user, packet)
    pub packet_is : take (length enc - u.tag_len) packet ≡ plain

module _ {u : UdpCipher} {b : Primitives} where
  chacha20_poly1305-Opens :
      (key nonce text : List ℕ) (session_id : ℕ) (users : Option ServerUserManager)
      → length nonce ≡ u.nonce_len
      → 8 ≤ length text
      → let cipher = u.new Method.chacha20_poly1305 key session_id in
        Opens u b Method.chacha20_poly1305 key users none
          (nonce ++ u.encrypt_packet cipher nonce text)
          (nonce ++ text)
  unfolding decrypt_message
  chacha20_poly1305-Opens key nonce text session_id users len long =
      let cipher = u.new Method.chacha20_poly1305 key session_id in
      let m = u.encrypt_packet cipher nonce text in
      let size = u.length-encrypt_packet cipher nonce text in
      let (other, rest, got, _) = get_uint_left 8 0 m (omega arith) in
      let same = u.new-chacha20_poly1305 key other session_id in
      let (valid, plain) = u.decrypt-encrypt_packet cipher nonce text in
      record {
        packet = nonce ++ (u.decrypt_packet cipher nonce m).1;
        length_is = omega (arith, length-append nonce m, length-append nonce text);
        opens =
            rw (← len, take-length_append nonce m, drop-length_append nonce m, got, same, valid);
        packet_is =
            take_behind nonce (u.decrypt_packet cipher nonce m).1 _ (length text)
              (omega (arith, length-append nonce m))
            ∙ ap (λ t. nonce ++ t) plain;
      }

module _ (u : UdpCipher) (b : Primitives) where
  prepended :
      (nonce sp body : List ℕ) {method : Method} {key reader_key hash enc : List ℕ}
      {users : Option ServerUserManager} {user : Option ServerUser}
      → user ≡ none
      → reader_key ≡ key
      → hash ≡ []
      → Opens u b method key users none enc (nonce ++ (sp ++ body))
      → Opens u b method reader_key users user enc (nonce ++ (sp ++ (hash ++ body)))
  prepended nonce sp body no_user same no_hash opens = rw (no_user, same, no_hash) opens

  empty_of : (xs ys : List ℕ) → length xs ≡ length ys → ys ≡ [] → xs ≡ []
  empty_of [] ys same empty = refl
  empty_of (x ∷ xs) [] same empty = absurd (omega arith)
  empty_of (x ∷ xs) (y ∷ ys) same empty = cc

  -- A packet with the nonce, the ids and the identity headers that its method asks for.
  abbrev pub IsOpened :
      Method
      → List ℕ
      → List ℕ
      → Option ServerUserManager
      → Option ServerUser
      → List ℕ
      → ℕ
      → ℕ
      → List ℕ
      → Type 0
  IsOpened method key reader_key users user packet session_id eih_len plain =
      (enc : List ℕ) × (encrypt_message u b method reader_key key packet session_id eih_len
        ≡ ok enc)
      × Opens u b method reader_key users user enc plain

  aes-IsOpened :
      (method : Method) (key : List ℕ) (identity_keys : List (List ℕ)) (reader_key : List ℕ)
      (users : Option ServerUserManager) (user : Option ServerUser) (session_id packet_id : ℕ)
      (i : Identities u b method key identity_keys reader_key users user (ids session_id packet_id))
      (body : List ℕ)
      → method_support_eih method ≡ true
      → session_id < 2 ^ 64
      → let sp = ids session_id packet_id in
        let enc =
          b.encrypt_block method reader_key sp
          ++ (i.eih ++ u.encrypt_packet (u.new method key session_id) (drop 4 sp) body) in
        (packet : List ℕ) × (length enc ≡ length (sp ++ (i.hash ++ body)) + u.tag_len)
        × (decrypt_aes u b method reader_key enc users ≡ ok (user, packet))
        × (take (length enc - u.tag_len) packet ≡ sp ++ (i.hash ++ body))
  aes-IsOpened method key identity_keys reader_key users user session_id packet_id i body aes
        small =
      let sp = ids session_id packet_id in
      let cipher = u.new method key session_id in
      let m = u.encrypt_packet cipher (drop 4 sp) body in
      let block = b.encrypt_block method reader_key sp in
      let (packet, opens, starts) =
        aes-Opens u b method key identity_keys reader_key users user session_id packet_id i body aes
          small in
      let size : length (block ++ (i.eih ++ m)) ≡ 16 + length i.hash + length body + u.tag_len =
        omega (
          arith,
          length-append block (i.eih ++ m),
          length-append i.eih m,
          u.length-encrypt_packet cipher (drop 4 sp) body,
          b.length-encrypt_block method reader_key sp (length-ids session_id packet_id),
          i.hash_is,
        ) in
      let cut : length (block ++ (i.eih ++ m)) - u.tag_len ≡ 16 + length i.hash + length body =
        omega arith in
      (
        packet,
        omega (
          arith,
          length-append sp (i.hash ++ body),
          length-append i.hash body,
          length-ids session_id packet_id,
        ),
        opens,
        ap (λ n. take n packet) cut ∙ starts,
      )

  pub encrypt_message-IsOpened :
      (method : Method) (key : List ℕ) (identity_keys : List (List ℕ)) (reader_key : List ℕ)
      (users : Option ServerUserManager) (user : Option ServerUser) (session_id packet_id : ℕ)
      (i : Identities u b method key identity_keys reader_key users user (ids session_id packet_id))
      (nonce body : List ℕ)
      → length nonce ≡ get_nonce_len u method
      → session_id < 2 ^ 64
      → let sp = ids session_id packet_id in
        IsOpened method key reader_key users user
          (nonce ++ (sp ++ (i.eih ++ body)))
          session_id
          (length i.eih)
          (nonce ++ (sp ++ (i.hash ++ body)))
  unfolding get_nonce_len encrypt_message decrypt_message
  encrypt_message-IsOpened Method.chacha20_poly1305 key identity_keys reader_key users user
        session_id packet_id i nonce body len small =
      let sp = ids session_id packet_id in
      let (no_eih, no_user, same) = i.prepends refl in
      let cipher = u.new Method.chacha20_poly1305 key session_id in
      (
        nonce ++ u.encrypt_packet cipher nonce (sp ++ body),
        rw (← len, take-length_append, drop-length_append, no_eih) refl,
        prepended nonce sp body no_user same (empty_of i.hash i.eih i.hash_is no_eih) (
            chacha20_poly1305-Opens key nonce (sp ++ body) session_id users len
              (omega (arith, length-append sp body, length-ids session_id packet_id))),
      )
  encrypt_message-IsOpened Method.aes_128_gcm key identity_keys reader_key users user session_id
        packet_id i [] body len small =
      let sp = ids session_id packet_id in
      let (packet, size, opens, starts) =
        aes-IsOpened Method.aes_128_gcm key identity_keys reader_key users user session_id packet_id
          i body refl small in
      (
        _,
        encrypt_aes_lem u b Method.aes_128_gcm reader_key key sp i.eih body session_id refl
            i.key_fits (length-ids session_id packet_id),
        record { packet = packet; length_is = size; opens = opens; packet_is = starts },
      )
  encrypt_message-IsOpened Method.aes_256_gcm key identity_keys reader_key users user session_id
        packet_id i [] body len small =
      let sp = ids session_id packet_id in
      let (packet, size, opens, starts) =
        aes-IsOpened Method.aes_256_gcm key identity_keys reader_key users user session_id packet_id
          i body refl small in
      (
        _,
        encrypt_aes_lem u b Method.aes_256_gcm reader_key key sp i.eih body session_id refl
            i.key_fits (length-ids session_id packet_id),
        record { packet = packet; length_is = size; opens = opens; packet_is = starts },
      )
  encrypt_message-IsOpened _ key identity_keys reader_key users user session_id packet_id i
        (x ∷ nonce) body len small =
      absurd (omega arith)

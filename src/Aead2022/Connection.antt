-- ===== src/Aead2022/Connection.antt =====
-- The state of `struct DecryptedReader` of crates/shadowsocks/src/relay/tcprelay/aead_2022.rs, and what
-- its polls work on. The streams are those of the AEAD streams.
use mobile_android_obfuscati.Common.{
  ℕ, ltb, Bool, false, List, [], if◌then◌else◌, Option, none, some,
}
use mobile_android_obfuscati.Aead.Async.{M, modify}
use mobile_android_obfuscati.Aead.Cipher.{Aead, NonceCheck}
use mobile_android_obfuscati.Aead.Transport.{ReadEvent}
use mobile_android_obfuscati.Aead2022.Identity.{Method, ServerUserManager}
use mobile_android_obfuscati.Aead2022.Header.{StreamType, ProtocolError}

pub data DecryptReadState : Type 0 where
  read_header : List ℕ → DecryptReadState
  read_length : DecryptReadState
  read_data : ℕ → DecryptReadState
  buffered_data : ℕ → DecryptReadState

module _ (e : Aead) where
  pub record DecryptedReader : Type 0 where
    pub stream_ty : StreamType
    pub state : DecryptReadState
    pub cipher : Option e.Cipher
    pub buffer : List ℕ
    pub method : Method
    pub salt : Option (List ℕ)
    pub request_salt : Option (List ℕ)
    pub data_chunk_count : ℕ
    pub user_manager : Option ServerUserManager
    pub user_key : Option (List ℕ)
    pub has_handshaked : Bool

module _ (e : Aead) (c : NonceCheck) where
  -- What the polls of a reader work on.
  pub record Connection : Type 0 where
    pub reader : DecryptedReader e
    pub context : c.Context
    pub stream : List ReadEvent

module _ {e : Aead} where
  unfoldable pub with_user_manager :
      StreamType → Method → List ℕ → Option ServerUserManager → DecryptedReader e
  with_user_manager stream_ty method key user_manager = record {
    stream_ty = stream_ty;
    state = DecryptReadState.read_header (if ltb 0 e.salt_len then key else []);
    cipher = if ltb 0 e.salt_len then none else some (e.new key []);
    buffer = [];
    method = method;
    salt = none;
    request_salt = none;
    data_chunk_count = 0;
    user_manager = user_manager;
    user_key = none;
    has_handshaked = false;
  }

module _ (e : Aead) (c : NonceCheck) where
  abbrev pub Polled : Type 0 → Type 0
  Polled A = M (Connection e c) ProtocolError A

  abbrev pub update_reader : (DecryptedReader e → DecryptedReader e) → Polled (Unit {0})
  update_reader f = modify (λ x. record x { reader = f x.reader })

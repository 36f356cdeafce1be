-- ===== src/Context/Replays.antt =====
-- Streams whose salt comes again.
use mobile_android_obfuscati.Common.{
  ℕ, ◌+◌, ◌≤◌, ◌<◌, ◌≡◌, List, [], ◌∷◌, ◌++◌, length, ok, IoErrorKind,
}
use mobile_android_obfuscati.Replay.PingPongBloom.{Bloom}
use mobile_android_obfuscati.Replay.PingPongBloom.Remembered.{IsWellFormed}
use mobile_android_obfuscati.Replay.ReplayProtector.{LruCache, CipherKind}
use mobile_android_obfuscati.Aead.Cipher.{Aead}
use mobile_android_obfuscati.Aead.Transport.{ReadEvent, incoming}
use mobile_android_obfuscati.Aead.Reader.Receive.{receive, arriving}
use mobile_android_obfuscati.Aead.Reader.Rejected.{receive_rejected}
use mobile_android_obfuscati.Context.{Context, check_nonce_replay, nonce_check}
use mobile_android_obfuscati.Context.Nonces.{Rejects}
use mobile_android_obfuscati.Context.Once.{AreOthers, check_all, check_nonce_replay_once}

module _ (a : Aead) {e : Bloom} {l : LruCache} where
  -- A context that rejects what comes again protects from replayed streams: after it has accepted a salt
  -- and has checked any other salts with the same method, no more than one filter is made for and none at
  -- a later time, a stream that starts with this salt delivers no byte, whatever follows the salt, however
  -- the stream is cut up or fails, and with any room at each poll, if the filters were well formed and the
  -- expiry duration of the set of nonces is not over.
  pub receive_replayed :
      (x : Context e l) (now later : ℕ) (method : CipherKind) (key : List ℕ) (b : ℕ)
      (salt rest : List ℕ) (others : List (ℕ × List ℕ)) (stream : List ReadEvent) (rooms : List ℕ)
      → Rejects x method
      → IsWellFormed x.replay_protector.nonce_ppbloom
      → later < now + l.expiry x.replay_protector.nonce_set
      → (check_nonce_replay x now method (b ∷ salt)).0 ≡ ok tt
      → AreOthers later (b ∷ salt) others
      → length others ≤ x.replay_protector.nonce_ppbloom.item_count
      → 0 < a.salt_len
      → length (b ∷ salt) ≡ a.salt_len
      → incoming stream ≡ (b ∷ salt) ++ rest
      → receive a (nonce_check e l later method) rooms (
          arriving key
            (check_all (check_nonce_replay x now method (b ∷ salt)).1 method others)
            stream)
        ≡ []
  receive_replayed x now later method key b salt rest others stream rooms rejects w soon accepted
        differ few salted len comes =
      receive_rejected a (nonce_check e l later method) key (b ∷ salt) rest IoErrorKind.other_kind
        (check_all (check_nonce_replay x now method (b ∷ salt)).1 method others) stream rooms salted
        len comes
        (check_nonce_replay_once x now later method b salt others rejects w soon accepted differ
          few)

-- ===== src/Aead/Transport.antt =====
-- The streams under the protocol (`AsyncRead`, `AsyncWrite`): what each poll of them will meet, in
-- order. A reader is at its end after its events, a writer takes all it is given.
use Prim.Native.Nat.{min}
use mobile_android_obfuscati.Common.{
  ℕ, suc, ◌<◌, leb, List, [], ◌∷◌, ◌++◌, length, take, drop, All, if◌then◌else◌,
}
use mobile_android_obfuscati.Common.{Result, ok, err, IoErrorKind}
use mobile_android_obfuscati.Aead.Async.{Poll}

pub data ReadEvent : Type 0 where
  pending : ReadEvent
  arrived : List ℕ → ReadEvent
  failed : IoErrorKind → ReadEvent

pub data WriteEvent : Type 0 where
  pending : WriteEvent
  accepts : ℕ → WriteEvent
  failed : IoErrorKind → WriteEvent

-- `poll_read` into a buffer with room for `n` bytes: no bytes are the end of the stream.
unfoldable pub poll_read : ℕ → List ReadEvent → Poll (Result IoErrorKind (List ℕ)) × List ReadEvent
poll_read n [] = (Poll.ready (ok []), [])
poll_read n (ReadEvent.pending ∷ es) = (Poll.pending, es)
poll_read n (ReadEvent.failed e ∷ es) = (Poll.ready (err e), es)
poll_read n (ReadEvent.arrived bs ∷ es) =
    if leb (length bs) n
    then (Poll.ready (ok bs), es)
    else (Poll.ready (ok (take n bs)), ReadEvent.arrived (drop n bs) ∷ es)

-- The bytes that are still to arrive.
abbrev pub incoming : List ReadEvent → List ℕ
incoming [] = []
incoming (ReadEvent.pending ∷ es) = incoming es
incoming (ReadEvent.arrived bs ∷ es) = bs ++ incoming es
incoming (ReadEvent.failed e ∷ es) = incoming es

-- `poll_write`: how many bytes the stream takes.
unfoldable pub poll_write : List ℕ → List WriteEvent → Poll (Result IoErrorKind ℕ) × List WriteEvent
poll_write bs [] = (Poll.ready (ok (length bs)), [])
poll_write bs (WriteEvent.pending ∷ es) = (Poll.pending, es)
poll_write bs (WriteEvent.accepts n ∷ es) = (Poll.ready (ok (min n (length bs))), es)
poll_write bs (WriteEvent.failed e ∷ es) = (Poll.ready (err e), es)

-- A stream that neither fails nor ends between its events.
abbrev ReadIsAlive : ReadEvent → Type 0
ReadIsAlive ReadEvent.pending = Unit
ReadIsAlive (ReadEvent.arrived bs) = 0 < length bs
ReadIsAlive (ReadEvent.failed e) = ⊥

abbrev pub AreAlive : List ReadEvent → Type 0
AreAlive es = All ReadIsAlive es

-- How often the reader will be told to wait.
abbrev pub pendings : List ReadEvent → ℕ
pendings [] = 0
pendings (ReadEvent.pending ∷ es) = suc (pendings es)
pendings (ReadEvent.arrived bs ∷ es) = pendings es
pendings (ReadEvent.failed e ∷ es) = pendings es

-- A stream that neither fails nor takes nothing.
abbrev WriteIsAlive : WriteEvent → Type 0
WriteIsAlive WriteEvent.pending = Unit
WriteIsAlive (WriteEvent.accepts n) = 0 < n
WriteIsAlive (WriteEvent.failed e) = ⊥

abbrev pub WritesAreAlive : List WriteEvent → Type 0
WritesAreAlive es = All WriteIsAlive es

-- How often the writer will be told to wait.
abbrev pub write_pendings : List WriteEvent → ℕ
write_pendings [] = 0
write_pendings (WriteEvent.pending ∷ es) = suc (write_pendings es)
write_pendings (WriteEvent.accepts n ∷ es) = write_pendings es
write_pendings (WriteEvent.failed e ∷ es) = write_pendings es

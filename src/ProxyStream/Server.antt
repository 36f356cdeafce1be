-- ===== src/ProxyStream/Server.antt =====
-- The handshake of `ProxyServerStream` of crates/shadowsocks/src/relay/tcprelay/proxy_stream/server.rs,
-- over the chunks of data that its reader decrypts.
pub mod Handshake
use mobile_android_obfuscati.Common.{
  ℕ, ◌+◌, ◌-◌, ◌==◌, leb, Bool, true, false, ◌&&◌, List, [], ◌∷◌, length, if◌then◌else◌,
}
use mobile_android_obfuscati.Common.{Result, ok, err, ◌>>=◌, IoErrorKind}
use mobile_android_obfuscati.Aead.Wire.{concat}
use mobile_android_obfuscati.Socks5.Address.{Address}
use mobile_android_obfuscati.ProxyStream.Protocol.{
  CipherCategory, TcpRequestHeader, read_from, header_addr,
}

-- `current_data_chunk_remaining` of a reader that has delivered so many bytes, at least one: how many
-- chunks it has decrypted, and how many bytes of the last one are left.
abbrev pub chunk_remaining : ℕ → List (List ℕ) → ℕ → ℕ × ℕ
chunk_remaining count [] consumed = (count, 0)
chunk_remaining count (chunk ∷ chunks) consumed =
    let rest = chunk_remaining (count + 1) chunks (consumed - length chunk) in
    if leb consumed (length chunk) then (count + 1, length chunk - consumed) else rest

-- A padding of no bytes is refused where the header is the end of the first chunk.
abbrev pub check_padding : TcpRequestHeader → ℕ × ℕ → Result IoErrorKind (Unit {0})
check_padding (TcpRequestHeader.stream h) remaining = ok tt
check_padding (TcpRequestHeader.aead_2022 h) (chunk_count, chunk_remaining) =
    if h.padding_size == 0 && (chunk_count == 1 && chunk_remaining == 0)
    then err IoErrorKind.other_kind
    else ok tt

-- The address, what is left to be read, and whether the stream has handshaked.
unfoldable pub handshake :
    CipherCategory → List (List ℕ) → Bool → Result IoErrorKind (Address × List ℕ) × Bool
handshake method chunks true = (err IoErrorKind.other_kind, true)
handshake method chunks false = (
  do
    (header, rest) ← read_from method (concat chunks)
    let consumed = length (concat chunks) - length rest
    _ ← check_padding header (chunk_remaining 0 chunks consumed)
    ok (header_addr header, rest),
  true,
)

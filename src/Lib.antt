-- ===== src/Lib.antt =====
-- A verification library for the proxy that the Android obfuscation library starts: the protocol and
-- policy code of obfuscator/src/main/rust/shadowsocks-rust. A local server takes SOCKS4, SOCKS4a or
-- SOCKS5 requests from applications, asks the access control list whether the target goes through the
-- proxy, and sends the target address in SOCKS5 encoding to a remote server; the remote server checks
-- nonces and packet ids for repetitions, asks its own list whether the client or the target is blocked,
-- and may be run by a manager that it talks to in a text protocol.
--
-- Files, with the code each models (crates/ stands for obfuscator/src/main/rust/shadowsocks-rust/crates/):
--
--   Socks5 and below: crates/shadowsocks/src/relay/socks5.rs. A module per type: Address has
--     read_cursor, read_from, write_to_buf and serialized_len; TcpRequestHeader, TcpResponseHeader,
--     UdpAssociateHeader, HandshakeRequest, HandshakeResponse, PasswdAuthRequest and PasswdAuthResponse
--     have their read_from and write_to_buf; Command, Reply and Error the codes.
--   Socks4 and below: crates/shadowsocks-service/src/local/socks/socks4.rs, likewise.
--   PacketWindow: crates/shadowsocks-service/src/net/packet_window.rs, the ring of 128 blocks of 64 bits
--     with validate_packet_id and reset. PacketWindow.Spec is the filter with an unbounded memory.
--   Acl.SubDomainsTree: crates/shadowsocks-service/src/acl/sub_domains_tree.rs, insert and contains.
--   Acl.Rules, Acl.Parsing, Acl.AccessControl: crates/shadowsocks-service/src/acl/mod.rs, the structs
--     Rules and ParsingRules with load_from_file, and the decisions of AccessControl. Acl.Engines has
--     the operations of other packages that they use.
--   Replay: crates/shadowsocks/src/security/replay, PingPongBloom::check_and_set and
--     ReplayProtector::check_nonce_and_set.
--   Context: crates/shadowsocks/src/context.rs, check_nonce_replay and generate_nonce under each policy.
--   Aead: crates/shadowsocks/src/relay/tcprelay/aead.rs. Aead.Reader is DecryptedReader with a function
--     for each function and each branch of the loop of poll_read_decrypted, Aead.Writer EncryptedWriter
--     with poll_write_encrypted. Aead.Async has the monad of polled functions, Aead.Transport the streams
--     under them, Aead.Cipher what is taken of the ciphers, and Aead.Wire the format. In Reader.Receive
--     and Writer.Send a caller polls again and again; Aead.EndToEnd joins the two.
--   Aead2022: crates/shadowsocks/src/relay/tcprelay/aead_2022.rs. Connection has the state of
--     DecryptedReader, Header the plain header chunk, Handshake poll_read_header, Reader the loop of
--     poll_read_decrypted with its other states, Writer EncryptedWriter with poll_write_encrypted, and Wire
--     the format; Identity has the users of config.rs and the primitives of identity headers. EndToEnd
--     joins writer and reader, Replays the reader and Context.
--   StreamCipher: crates/shadowsocks/src/relay/tcprelay/stream.rs, the reader and the writer under a stream
--     cipher, over Aead.Async and Aead.Transport.
--   UdpRelay: crates/shadowsocks/src/relay/udprelay/aead.rs, stream.rs and aead_2022.rs, one encrypted
--     packet each. UdpRelay.Aead2022 has decrypt_message and encrypt_message, its Client and Server the
--     packets of the two directions, and its Cipher what is taken of the ciphers.
--   ProxyStream: crates/shadowsocks/src/relay/tcprelay/proxy_stream. Protocol has the request headers of
--     protocol/mod.rs, v1.rs and v2.rs; Client the first packet and poll_write of client.rs; Server the
--     handshake of server.rs, over the chunks that a reader decrypts.
--   Manager: crates/shadowsocks/src/manager/protocol.rs, from_bytes and to_bytes of the requests and
--     responses.
--   Net: the address types of std::net. Common: numbers, bytes, strings, results and lists.
--   Examples: concrete inputs for the theorems.
--
-- Conventions. Bytes and machine integers are natural numbers, in range where a theorem says so
-- (IsByte, IsU16, IsWire); a string is the list of its UTF-8 bytes. A reader is the list of the bytes
-- that are left, and a read returns what remains; a short list is the end of the stream. A writer or a
-- buffer is the list of the bytes in it. A function that may fail returns a Result, where panic stands
-- for an assertion that fails or a read past the end of a cursor. State that the code changes in place
-- is passed and returned. A HashMap is an association list of which the first entry of a key counts, a
-- HashSet a list.
--
-- Asynchronous code. A stream is the list of what its polls will meet: a wait, a failure, bytes that
-- arrive or a number of bytes that are taken; a reader is at its end after the list, a writer takes all
-- it is given. A polled function changes the state that it is given and comes to pending, or to ready
-- with a Result; `ready!(..)?` is the bind of that monad.
--
-- Bounds. The loops of poll_read_decrypted run on fuel, two turns for each byte that is buffered or yet
-- to arrive and two more: each turn but the last takes a byte or leaves buffered data. All other
-- functions recurse on a list, on a tree or on a counter. The sums and
-- shifts of the packet window stay below 2^64 because ids are divided by 64 first and the loop over
-- blocks is cut at 128; the indices are masked, so that the ring, whose length is part of Represents,
-- is never left.
--
-- Parameters. IP ranges, network parsing, regular expressions and IDNA (Acl.Engines), the resolver, the
-- Bloom filter and the LRU cache (Replay), serde_json (Manager.Protocol), the ciphers (Aead.Cipher,
-- StreamCipher, UdpRelay.Aead2022.Cipher), hashes and block ciphers (Aead2022.Identity) are other
-- packages: records of operations with the laws that are used. The clock, random numbers and memory that is not written are arguments.
-- Aead and Aead2022 take the check of nonces as an interface, which Context fills. Examples has an
-- instance of each.
--
-- Not modelled: the copying between streams; the asynchronous servers, sockets, plugins, DNS, tun and
-- redirection, which are operating system and network interfaces; configuration files; load balancing;
-- the text forms of addresses; the methods behind the feature aead-cipher-2022-extra, which the code
-- treats as it does ChaCha20-Poly1305; the Kotlin wrapper.
pub mod Common
pub mod Net
pub mod Socks5
pub mod PacketWindow
pub mod Acl
pub mod Socks4
pub mod Manager
pub mod Replay
pub mod Aead
pub mod Aead2022
pub mod UdpRelay
pub mod Context
pub mod ProxyStream
pub mod StreamCipher
pub mod Examples

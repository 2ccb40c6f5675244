-- ===== src/Lib.antt =====
-- SecureSync: the secure channel between two devices, the limits on handshakes, and the decisions about
-- what to synchronise.
--
-- A device that wants to send takes a session from the store, seals a packet into a frame and puts it on
-- the wire; the peer opens the frame against its own store. A session comes from a handshake of four
-- messages, in which both devices sign the transcript, confirm the derived keys and pin each other's key
-- on first use; an incoming one passes the rate limits first. Above the channel, a file's manifest of
-- chunks is compared with the peer's, by version and by digest, to decide the direction and the chunks
-- to send.
--
-- The parts, and the code that each one models:
--   Window     `AntiReplayWindow` of src/securesync/infrastructure/networking/replay_protection.py:
--              would_accept, accept, _slide; the bitmask is a list of bytes, a Python int an integer
--   Frame      the rest of replay_protection.py: header, frame, directions, nonce, associated data, skew;
--              `EncryptedPayload` of src/securesync/domain/crypto.py
--   Struct     the calls of Python's `struct` with big-endian unsigned fields
--   Packet     src/securesync/core/protocol.py: PacketHeader.pack and unpack, Packet.encode and decode
--   Dict       Python's `dict`, an association list in insertion order
--   Session    `PeerSession` of src/securesync/infrastructure/networking/session_store.py
--   Store      `SessionStore` of session_store.py: put, the caps, eviction, expiry, lookup
--   Channel    `SecureChannel` of src/securesync/infrastructure/networking/secure_channel.py: seal, open
--   RateLimit  src/securesync/infrastructure/networking/handshake_rate_limit.py
--   Curve      src/securesync/infrastructure/networking/x25519_safety.py: degenerate keys and secrets
--   KeySchedule    session_keys.py, beside it: the key schedule of the directions
--   Messages   handshake_messages.py, beside it: encoders, decoders, transcript hashes
--   HandshakeKeys  handshake_keys.py, beside it: secrets and confirmation MACs
--   Stream     message_io.py, beside it: messages with a length prefix
--   Handshake  handshake_v3.py, beside it: Handshake has the computations and checks of each message,
--              Handshake.World what the coroutines read and change, Handshake.Initiator and
--              Handshake.Responder the coroutines
--   Chunk      src/securesync/domain/chunk.py
--   Delta      src/securesync/domain/delta.py
--   Versions   `VersionVector` of src/securesync/domain/conflict.py
--   Direction  src/securesync/domain/sync_direction.py
--   Reader     src/securesync/infrastructure/chunking/streaming_chunk_reader.py
--   Debounce   src/securesync/infrastructure/filesystem/debounce.py
--   Conflict   `ConflictMetadata` of conflict.py, in_memory_conflict_repository.py, and the use cases of
--              src/securesync/application/use_cases/conflict_resolution.py
--   Sas        handshake_sas.py of infrastructure/networking
-- Prelude and Errors hold what these share; Tests applies the properties to concrete values.
--
-- State is passed explicitly: an operation that changes an object returns the new one, with what it
-- returns or raises. A session that the channel and the store share in Python is written back under its
-- identifier. A clock's reading is an argument, in whole ticks. Exceptions are constructors of `Error`.
--
-- The `while` loops of the store run on fuel, one round for each stored session and one more; each
-- round that goes on removes a session, so the fuel is enough. The chunk reader's loop runs on two
-- rounds of fuel for each byte of the file and one more. The caps and lifetimes are parameters of the
-- store.
--
-- A coroutine of the handshake is a function of the world: the bytes that will arrive on the connection
-- and how it ends, the trust store, the half-open count and the state. Lists in the world say for each
-- wait whether it ends before the deadline.
--
-- Parameters of the model: the AEAD cipher, msgpack and its checksum, the test for hexadecimal digits,
-- HKDF, HMAC, SHA-256, the key exchange, signatures, and what Python decides about the characters of an
-- identifier. A theorem that relies on a parameter names the law that it uses (IsAead, IsFaithful, IsKdf,
-- Works).
--
-- Not modelled: curve arithmetic and other cryptography of libraries, the older handshake of
-- x25519_handshake.py, the digits of short authentication strings, sockets and discovery, the file
-- system, SQLite, YAML, file system watching, the other asynchronous use cases and the command line.
mod Prelude
pub mod Errors
pub mod Window
pub mod Frame
pub mod Struct
pub mod Packet
pub mod Dict
pub mod Session
pub mod Store
pub mod Channel
pub mod RateLimit
pub mod Chunk
pub mod Delta
pub mod Versions
pub mod Direction
pub mod Curve
pub mod KeySchedule
pub mod Messages
pub mod HandshakeKeys
pub mod Stream
pub mod Handshake
pub mod Reader
pub mod Debounce
pub mod Conflict
pub mod Sas
mod Tests

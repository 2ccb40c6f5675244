-- ===== src/Stream.antt =====
-- src/securesync/infrastructure/networking/message_io.py: length-prefixed messages on a connection.
-- What arrives on a connection is a sequence of bytes, after which the peer has closed the connection or
-- sends nothing more until the time is over.
pub mod Framing
use secure_sync.Prelude.{
  ℕ, ◌+◌, ◌*◌, ◌^◌, Bool, List, [], ◌∷◌, ◌++◌, length, take, drop, ltb, leb, if◌then◌else◌,
}
use secure_sync.Prelude.Bytes.{Bytes, from_be}
use secure_sync.Errors.{
  Error, Result, ok, err, ◌>>=◌, ◌>>◌, guard, oversized_message_error, message_read_timeout_error,
  incomplete_read_error,
}
use secure_sync.Frame.{struct_pack}

abbrev pub length_prefix_size : ℕ
length_prefix_size = 4

abbrev pub max_handshake_message_size : ℕ
max_handshake_message_size = 64 * 1024

abbrev pub max_message_size : ℕ
max_message_size = 128 * 1024 * 1024

pub data Ending : Type 0 where
  closed stalled : Ending

pub record Incoming : Type 0 where
  pub arrived : Bytes
  pub ending : Ending

-- What a read that cannot be completed raises: `IncompleteReadError`, or the `TimeoutError` of `wait_for`
-- as `read_length_prefixed` turns it.
abbrev pub missing : Ending → Error
missing closed = incomplete_read_error
missing stalled = message_read_timeout_error

-- `wait_for(reader.readexactly(n), read_timeout)`, of asyncio
unfoldable pub read_exactly : ℕ → Incoming → Result (Bytes × Incoming)
read_exactly n incoming =
    if leb n (length incoming.arrived)
    then ok (take n incoming.arrived, record incoming { arrived = drop n incoming.arrived })
    else err (missing incoming.ending)

unfoldable pub read_length_prefixed : ℕ → Incoming → Result (Bytes × Incoming)
unfolding read_exactly
read_length_prefixed max_size incoming = do
  (prefix, rest) ← read_exactly length_prefix_size incoming
  guard (leb (from_be prefix) max_size) oversized_message_error
  read_exactly (from_be prefix) rest

-- `struct.pack(_LENGTH_PREFIX_FORMAT, len(payload)) + payload`, as the writers of such messages do
unfoldable pub frame_message : Bytes → Result Bytes
unfolding struct_pack
frame_message payload = do
  prefix ← struct_pack length_prefix_size (length payload)
  ok (prefix ++ payload)

-- ===== src/Packet.antt =====
-- core/protocol.py: packet types, the 32-byte header, and packets.
pub mod Codec
use secure_sync.Prelude.{
  ℕ, ◌+◌, ◌^◌, ◌<◌, ◌≡◌, refl, Bool, not, Option, none, some, List, [], ◌∷◌, ◌++◌, ◌==◌,
  if◌then◌else◌, length, take, slice,
}
use secure_sync.Prelude.Bytes.{Bytes}
use secure_sync.Errors.{
  Result, ok, err, ◌>>=◌, invalid_header_error, payload_integrity_error, value_error,
}
use secure_sync.Struct.{pack_fields, unpack_fields}

abbrev pub magic_number : ℕ
magic_number = 0x53594E43

abbrev pub header_size : ℕ
header_size = 32

abbrev pub current_version : ℕ
current_version = 2

pub data PacketType : Type 0 where
  hello key_exchange auth file_manifest chunk_request chunk_data heartbeat peer_list error close :
      PacketType

-- int(packet_type)
unfoldable pub type_value : PacketType → ℕ
type_value PacketType.hello = 0x01
type_value PacketType.key_exchange = 0x02
type_value PacketType.auth = 0x03
type_value PacketType.file_manifest = 0x10
type_value PacketType.chunk_request = 0x11
type_value PacketType.chunk_data = 0x12
type_value PacketType.heartbeat = 0x20
type_value PacketType.peer_list = 0x21
type_value PacketType.error = 0xF0
type_value PacketType.close = 0xFF

-- PacketType(value), which raises `ValueError` for an unknown value
unfoldable pub packet_type_of : ℕ → Result PacketType
packet_type_of v =
    if v == 0x01
    then ok PacketType.hello
    else if v == 0x02
    then ok PacketType.key_exchange
    else if v == 0x03
    then ok PacketType.auth
    else if v == 0x10
    then ok PacketType.file_manifest
    else if v == 0x11
    then ok PacketType.chunk_request
    else if v == 0x12
    then ok PacketType.chunk_data
    else if v == 0x20
    then ok PacketType.heartbeat
    else if v == 0x21
    then ok PacketType.peer_list
    else if v == 0xF0
    then ok PacketType.error
    else if v == 0xFF
    then ok PacketType.close
    else err value_error

pub record PacketHeader : Type 0 where
  pub version : ℕ
  pub packet_type : PacketType
  pub flags : ℕ
  pub message_id : ℕ
  pub payload_length : ℕ
  pub timestamp : ℕ
  pub crc32 : ℕ

-- The fields of ">IBBHQIQI".
abbrev pub header_fields : PacketHeader → List (ℕ × ℕ)
header_fields h =
    (4, magic_number)
    ∷ (1, h.version)
    ∷ (1, type_value h.packet_type)
    ∷ (2, h.flags)
    ∷ (8, h.message_id)
    ∷ (4, h.payload_length)
    ∷ (8, h.timestamp)
    ∷ (4, h.crc32)
    ∷ []

unfoldable pub pack_header : PacketHeader → Result Bytes
pack_header h = pack_fields (header_fields h)

-- What `unpack` makes of the eight numbers.
unfoldable pub header_of : List ℕ → Result PacketHeader
header_of (magic ∷ version ∷ p_type ∷ flags ∷ msg_id ∷ p_len ∷ ts ∷ crc ∷ []) =
    if not (magic == magic_number) then err invalid_header_error else (do
      packet_type ← packet_type_of p_type
      ok (record {
        version = version;
        packet_type = packet_type;
        flags = flags;
        message_id = msg_id;
        payload_length = p_len;
        timestamp = ts;
        crc32 = crc;
      }))
header_of _ = err invalid_header_error

unfoldable pub unpack_header : Bytes → Result PacketHeader
unpack_header bytes =
    if not (length bytes == header_size)
    then err invalid_header_error
    else header_of (unpack_fields (4 ∷ 1 ∷ 1 ∷ 2 ∷ 8 ∷ 4 ∷ 8 ∷ 4 ∷ []) bytes)

-- msgpack and zlib, which the program only calls: the payloads, their serialisation, and the checksum.
pub record PayloadCodec : Type 1 where
  pub Payload : Type 0
  pub packb : Payload → Bytes
  pub unpackb : Bytes → Result Payload
  pub checksum : Bytes → ℕ

-- What the program relies on: a payload is read back as it was written.
pub record IsFaithful (codec : PayloadCodec) : Type 0 where
  pub unpackb-packb : (p : codec.Payload) → codec.unpackb (codec.packb p) ≡ ok p

pub record Packet (codec : PayloadCodec) : Type 0 where
  pub header : PacketHeader
  pub payload : codec.Payload

module _ (codec : PayloadCodec) where
  open codec use {Payload, packb, unpackb, checksum}

  -- The header that `encode` writes.
  abbrev pub stamped : PacketHeader → Payload → PacketHeader
  stamped h payload = record h {
    payload_length = length (packb payload);
    crc32 = checksum (packb payload);
  }

  unfoldable pub encode_packet : Packet codec → Result Bytes
  encode_packet p = do
    packed ← pack_header (stamped p.header p.payload)
    ok (packed ++ packb p.payload)

  unfoldable pub decode_packet : Bytes → Result (Packet codec)
  decode_packet bytes = do
    header ← unpack_header (take header_size bytes)
    let payload_bytes = slice header_size (header_size + header.payload_length) bytes
    (if not (length payload_bytes == header.payload_length)
        then err payload_integrity_error
        else if not (checksum payload_bytes == header.crc32)
        then err payload_integrity_error
        else (do
          payload ← unpackb payload_bytes
          ok (record { header = header; payload = payload })))

-- The clock's reading in milliseconds is an argument.
unfoldable pub make_header : PacketType → ℕ → ℕ → ℕ → PacketHeader
make_header packet_type message_id flags now_ms = record {
  version = current_version;
  packet_type = packet_type;
  flags = flags;
  message_id = message_id;
  payload_length = 0;
  timestamp = now_ms;
  crc32 = 0;
}

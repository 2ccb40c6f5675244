-- ===== src/Frame.antt =====
-- The plaintext wire frame of src/securesync/infrastructure/networking/replay_protection.py: header,
-- complete frame, directions, deterministic nonce, associated data and timestamp skew.
-- Integers that the source masks by `& 0xFF` are natural numbers taken modulo 256.
pub mod Codec
pub mod Nonce
pub mod Aad
use secure_sync.Prelude.{
  ℕ, ◌+◌, ◌-◌, ◌%◌, ◌^◌, Bool, ◌||◌, not, List, [], ◌∷◌, ◌++◌, ltb, leb, ◌==◌, if◌then◌else◌,
  length, slice, take, drop, get_or,
}
use secure_sync.Prelude.Bytes.{Bytes, to_be, from_be}
use secure_sync.Errors.{
  Result, ok, err, ◌>>=◌, ◌>>◌, guard, frame_decode_error, replay_protection_error, struct_error,
}

abbrev pub frame_version : ℕ
frame_version = 2

abbrev pub direction_initiator_to_responder : ℕ
direction_initiator_to_responder = 0

abbrev pub direction_responder_to_initiator : ℕ
direction_responder_to_initiator = 1

abbrev pub role_initiator : ℕ
role_initiator = 0

abbrev pub role_responder : ℕ
role_responder = 1

abbrev pub session_id_size : ℕ
session_id_size = 8

abbrev pub frame_header_size : ℕ
frame_header_size = 11

-- `NONCE_SIZE` and `TAG_SIZE` of domain/crypto.py
abbrev pub nonce_size : ℕ
nonce_size = 12

abbrev pub tag_size : ℕ
tag_size = 16

abbrev pub min_frame_size : ℕ
min_frame_size = 39

-- `struct.pack` of one unsigned big-endian field of `width` bytes
unfoldable pub struct_pack : ℕ → ℕ → Result Bytes
struct_pack width n = if ltb n (256 ^ width) then ok (to_be width n) else err struct_error

unfoldable pub pack_frame_header : ℕ → ℕ → ℕ → Bytes → Result Bytes
pack_frame_header version direction packet_type session_id =
    if not (length session_id == session_id_size)
    then err frame_decode_error
    else ok (version % 256 ∷ direction % 256 ∷ packet_type % 256 ∷ session_id)

-- domain/crypto.py
pub record EncryptedPayload : Type 0 where
  pub ciphertext : Bytes
  pub nonce : Bytes
  pub tag : Bytes

pub record FrameHeader : Type 0 where
  pub version : ℕ
  pub direction : ℕ
  pub packet_type : ℕ
  pub session_id : Bytes

-- `unpack_frame_header`, its tuple as a `FrameHeader`
unfoldable pub unpack_frame_header : Bytes → Result FrameHeader
unpack_frame_header bytes =
    if ltb (length bytes) frame_header_size
    then err frame_decode_error
    else ok (record {
      version = get_or bytes 0 0;
      direction = get_or bytes 1 0;
      packet_type = get_or bytes 2 0;
      session_id = slice 3 frame_header_size bytes;
    })

unfoldable pub encode_frame : (header : FrameHeader) (nonce ciphertext tag : Bytes) → Result Bytes
unfolding pack_frame_header
encode_frame header nonce ciphertext tag =
    if not (length nonce == nonce_size)
    then err frame_decode_error
    else if not (length tag == tag_size)
    then err frame_decode_error
    else (do
      packed ←
          pack_frame_header header.version header.direction header.packet_type header.session_id
      ok (packed ++ (nonce ++ (ciphertext ++ tag))))

unfoldable pub split_frame : Bytes → Result (FrameHeader × Bytes × EncryptedPayload)
unfolding unpack_frame_header
split_frame bytes = if ltb (length bytes) min_frame_size then err frame_decode_error else (do
  header ← unpack_frame_header bytes
  let nonce = slice frame_header_size (frame_header_size + nonce_size) bytes
  let ciphertext = slice (frame_header_size + nonce_size) (length bytes - tag_size) bytes
  let tag = drop (length bytes - tag_size) bytes
  ok (header, nonce, record { ciphertext = ciphertext; nonce = nonce; tag = tag }))

unfoldable pub outgoing_direction : ℕ → Result ℕ
outgoing_direction role =
    if role == role_initiator
    then ok direction_initiator_to_responder
    else if role == role_responder
    then ok direction_responder_to_initiator
    else err replay_protection_error

unfoldable pub incoming_direction : ℕ → Result ℕ
unfolding outgoing_direction
incoming_direction role =
    outgoing_direction (if role == role_initiator then role_responder else role_initiator)

-- A counter is never negative here: it is allocated from 1 up, or read from eight bytes.
unfoldable pub derive_nonce : ℕ → ℕ → Result Bytes
unfolding struct_pack
derive_nonce direction counter =
    if not (
      direction == direction_initiator_to_responder
      || direction == direction_responder_to_initiator)
    then err replay_protection_error
    else if counter == 0
    then err replay_protection_error
    else (do packed ← struct_pack 8 counter; ok (direction ∷ packed ++ 0 ∷ 0 ∷ 0 ∷ []))

-- `_length_prefixed`: a length above 65535 is `struct.pack`'s own error.
unfoldable pub length_prefixed : Bytes → Result Bytes
unfolding struct_pack
length_prefixed value = do prefix ← struct_pack 2 (length value); ok (prefix ++ value)

unfoldable pub build_aad : ℕ → ℕ → ℕ → Bytes → Bytes → Bytes → Result Bytes
unfolding length_prefixed
build_aad version direction packet_type session_id sender_id receiver_id = do
  sender ← length_prefixed sender_id
  receiver ← length_prefixed receiver_id
  ok (version % 256 ∷ direction % 256 ∷ packet_type % 256 ∷ (session_id ++ (sender ++ receiver)))

-- abs(now_ms - timestamp_ms) <= max_skew_ms
unfoldable pub check_timestamp_skew : ℕ → ℕ → ℕ → Bool
check_timestamp_skew timestamp_ms now_ms max_skew_ms =
    leb ((now_ms - timestamp_ms) + (timestamp_ms - now_ms)) max_skew_ms

-- ===== src/Tests/Frames.antt =====
-- The properties of the wire formats on small frames and packets.
use secure_sync.Prelude.{ℕ, ◌%◌, ◌≡◌, refl, [], ◌∷◌, ◌++◌, replicate, arith}
use secure_sync.Prelude.Bytes.{Bytes, IsBytes, to_be}
use secure_sync.Errors.{Result, ok}
use secure_sync.Frame.{
  FrameHeader, EncryptedPayload, encode_frame, split_frame, derive_nonce, build_aad, struct_pack,
  frame_version,
}
use secure_sync.Frame.Codec.{split-encode, encode-split, one_byte_fields}
use secure_sync.Frame.Nonce.{derive_nonce-injective}
use secure_sync.Frame.Aad.{build_aad-injective}
use secure_sync.Packet.{
  PacketType, Packet, encode_packet, decode_packet, make_header, stamped, pack_header, type_value,
}
use secure_sync.Struct.{pack_fields}
use secure_sync.Packet.Codec.{decode-encode}
use secure_sync.Tests.Fixtures.{shared_id, alice, bob, plain_codec, plain_codec-IsFaithful}

-- What a successful result holds.
abbrev bytes_of : Result Bytes → Bytes
bytes_of (ok bytes) = bytes
bytes_of _ = []

abbrev small_header : FrameHeader
small_header = record { version = 2; direction = 1; packet_type = 18; session_id = replicate 8 9 }

abbrev small_frame : Bytes
small_frame = 2 ∷ 1 ∷ 18 ∷ (replicate 8 9 ++ (replicate 12 5 ++ (3 ∷ 4 ∷ replicate 16 7)))

split-encode_example :
    split_frame small_frame
    ≡ ok (
      one_byte_fields small_header,
      replicate 12 5,
      record { ciphertext = 3 ∷ 4 ∷ []; nonce = replicate 12 5; tag = replicate 16 7 },
    )
unfolding encode_frame
split-encode_example =
    split-encode small_header (replicate 12 5) (3 ∷ 4 ∷ []) (replicate 16 7) small_frame refl

small_frame-IsBytes : IsBytes small_frame
small_frame-IsBytes = omega arith

encode-split_example :
    (h : FrameHeader) × (nonce : Bytes) × (payload : EncryptedPayload) × (split_frame small_frame
      ≡ ok (h, nonce, payload))
    × (encode_frame h nonce payload.ciphertext payload.tag ≡ ok small_frame)
encode-split_example = encode-split small_frame small_frame-IsBytes (omega arith)

abbrev fifth_nonce : Bytes
fifth_nonce = 1 ∷ 0 ∷ 0 ∷ 0 ∷ 0 ∷ 0 ∷ 0 ∷ 0 ∷ 5 ∷ 0 ∷ 0 ∷ 0 ∷ []

fifth : derive_nonce 1 5 ≡ ok fifth_nonce
unfolding derive_nonce to_be
fifth = refl

abbrev way : ℕ
way = 1

abbrev fifth_counter : ℕ
fifth_counter = 5

derive_nonce-injective_example : (way ≡ 1) × (fifth_counter ≡ 5)
derive_nonce-injective_example =
    derive_nonce-injective way fifth_counter 1 5 fifth_nonce fifth fifth

abbrev kind : ℕ
kind = 18

abbrev small_aad : Bytes
small_aad = bytes_of (build_aad 2 1 18 (replicate 8 9) (1 ∷ []) (2 ∷ []))

small_aad_lem : build_aad 2 1 18 (replicate 8 9) (1 ∷ []) (2 ∷ []) ≡ ok small_aad
unfolding build_aad to_be
small_aad_lem = refl

build_aad-injective_example :
    (frame_version % 256 ≡ 2 % 256)
    × (way % 256 ≡ 1 % 256)
    × (kind % 256 ≡ 18 % 256)
    × (shared_id ≡ shared_id)
    × (alice.own_device_id ≡ alice.own_device_id)
    × (bob.own_device_id ≡ bob.own_device_id)
build_aad-injective_example =
    build_aad-injective 2 1 18 2 1 18 (replicate 8 9) (1 ∷ []) (2 ∷ []) (replicate 8 9) (1 ∷ [])
      (2 ∷ []) small_aad refl small_aad_lem small_aad_lem

abbrev small_packet : Packet plain_codec
small_packet = record { header = make_header PacketType.chunk_data 5 0 1000; payload = 3 ∷ 4 ∷ [] }

abbrev small_packet_bytes : Bytes
small_packet_bytes = bytes_of (encode_packet plain_codec small_packet)

encoded : encode_packet plain_codec small_packet ≡ ok small_packet_bytes
unfolding encode_packet pack_header pack_fields struct_pack to_be make_header type_value
encoded = refl

decode-encode_example :
    decode_packet plain_codec (small_packet_bytes ++ 8 ∷ [])
    ≡ ok (record {
      header = stamped plain_codec small_packet.header (3 ∷ 4 ∷ []);
      payload = 3 ∷ 4 ∷ [];
    })
decode-encode_example =
    decode-encode plain_codec plain_codec-IsFaithful small_packet small_packet_bytes (8 ∷ [])
      encoded

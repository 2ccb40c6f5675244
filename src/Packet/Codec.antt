-- ===== src/Packet/Codec.antt =====
-- `Packet.encode` and `Packet.decode` (core/protocol.py), one after the other.
use secure_sync.Prelude.{
  ◌+◌, ◌-◌, ◌≡◌, refl, sym, ap, ◌∙◌, [], ◌++◌, arith, length, take, drop, slice, take-append,
  drop-append,
}
use mathlib.Core.List.{append-nil, append_assoc}
use secure_sync.Prelude.Bytes.{Bytes}
use secure_sync.Errors.{ok, >>=-eq-ok}
use secure_sync.Struct.{unpack_fields, widths_of, values_of, length-pack_fields, unpack-pack}
use secure_sync.Packet.{
  PacketType, PacketHeader, Packet, PayloadCodec, IsFaithful, type_value, packet_type_of,
  header_fields, pack_header, header_of, unpack_header, stamped, encode_packet, decode_packet,
}

-- Every packet type is read back from its number.
pub packet_type_of-type_value : (t : PacketType) → packet_type_of (type_value t) ≡ ok t
unfolding packet_type_of type_value
packet_type_of-type_value PacketType.hello = refl
packet_type_of-type_value _ = refl

pub length-pack_header :
    (h : PacketHeader) (bytes : Bytes) → pack_header h ≡ ok bytes → length bytes ≡ 32
unfolding pack_header
length-pack_header h bytes e = length-pack_fields (header_fields h) bytes e

header_of-values : (h : PacketHeader) → header_of (values_of (header_fields h)) ≡ ok h
unfolding header_of
header_of-values h = ground (arith, packet_type_of-type_value h.packet_type)

-- A header that could be packed is unpacked to itself.
pub unpack-pack_header :
    (h : PacketHeader) (bytes : Bytes) → pack_header h ≡ ok bytes → unpack_header bytes ≡ ok h
unfolding unpack_header pack_header
unpack-pack_header h bytes e =
    let fields = unpack-pack (header_fields h) bytes [] e in
    rw (length-pack_fields (header_fields h) bytes e) (
      ap (λ z. header_of (unpack_fields (widths_of (header_fields h)) z)) (sym (append-nil bytes))
      ∙ (ap header_of fields ∙ header_of-values h))

module _ (codec : PayloadCodec) (faithful : IsFaithful codec) where
  open codec use {Payload, packb, unpackb, checksum}

  decoded :
      (p : Packet codec) (bytes : Bytes)
      → unpack_header (take 32 bytes) ≡ ok (stamped codec p.header p.payload)
      → slice 32 (32 + length (packb p.payload)) bytes ≡ packb p.payload
      → decode_packet codec bytes
        ≡ ok (record { header = stamped codec p.header p.payload; payload = p.payload })
  unfolding decode_packet
  decoded p bytes head cut = rw head (ground (arith, cut, faithful.unpackb-packb p.payload))

  -- What `encode` wrote is decoded to the same payload, under a header that carries the payload's length
  -- and checksum; bytes that follow the packet are ignored.
  pub decode-encode :
      (p : Packet codec) (bytes rest : Bytes)
      → encode_packet codec p ≡ ok bytes
      → decode_packet codec (bytes ++ rest)
        ≡ ok (record { header = stamped codec p.header p.payload; payload = p.payload })
  unfolding encode_packet decode_packet
  decode-encode p bytes rest e =
      let h = stamped codec p.header p.payload in
      let body = packb p.payload in
      let (packed, ep, e') = >>=-eq-ok (pack_header h) _ e in
      let len : 32 ≡ length packed = sym (length-pack_header h packed ep) in
      let same : bytes ++ rest ≡ packed ++ (body ++ rest) =
        ap (λ z. z ++ rest) (let w : bytes ≡ packed ++ body = cc e' in w)
        ∙ append_assoc packed body rest in
      let head : take 32 (bytes ++ rest) ≡ packed =
        ap (take 32) same ∙ take-append packed (body ++ rest) 32 len in
      let cut : slice 32 (32 + length body) (bytes ++ rest) ≡ body =
        ap (λ z. take (32 + length body - 32) (drop 32 z)) same
        ∙ (ap (take (32 + length body - 32)) (drop-append packed (body ++ rest) 32 len)
            ∙ take-append body rest _ (omega arith)) in
      decoded p (bytes ++ rest) (rw head (unpack-pack_header h packed ep)) cut

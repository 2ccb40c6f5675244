-- ===== src/Tests/Channels.antt =====
-- The properties of `SecureChannel`: Alice seals a frame, Bob opens it.
use secure_sync.Prelude.{ℕ, ◌≡◌, refl, subst, List, [], ◌∷◌, arith}
use secure_sync.Prelude.Int.{pos, ◌+ℤ◌, ◌-ℤ◌}
use secure_sync.Prelude.Bytes.{Bytes, beq, to_be, from_be}
use secure_sync.Errors.{
  Result, ok, err, frame_decode_error, direction_mismatch_error, replay_window_rejected_error,
}
use secure_sync.Dict
use secure_sync.Struct.{pack_fields, unpack_fields}
use secure_sync.Frame.{
  FrameHeader, derive_nonce, build_aad, struct_pack, length_prefixed, encode_frame,
  pack_frame_header, split_frame, unpack_frame_header, outgoing_direction, incoming_direction,
  check_timestamp_skew,
}
use secure_sync.Frame.Nonce.{nonce_counter}
use secure_sync.Window.{
  would_accept, accept, advance, slot_of, make_window, slide, slide_bits, slide_bit,
}
use secure_sync.Window.Bits.{is_set, set_bit, bit_at}
use secure_sync.Window.Refinement.{make_window-Represents, Represents}
use secure_sync.Packet.{
  PacketType, Packet, encode_packet, decode_packet, make_header, stamped, pack_header,
  unpack_header, header_of, packet_type_of, type_value,
}
use secure_sync.Session.{PeerSession, allocate_counter, mark_active}
use secure_sync.Store.{SessionStore, get_by_session_id}
use secure_sync.Channel.{
  seal, seal_counted, seal_payload, emit, open_frame, check_frame, settle, prefilter, authenticate,
  check_packet, confirm_activity, replace_session,
}
use secure_sync.Channel.Effects.{Checked, open_error_changes_nothing, open_ok_is_Checked}
use secure_sync.Channel.Replay.{IsTracked, open_all, replayed_frame_refused}
use secure_sync.Channel.Delivery.{open-seal}
use secure_sync.Channel.Reflection.{reflected_frame_refused}
use secure_sync.Tests.Fixtures.{
  plain_codec, plain_codec-IsFaithful, plain_cipher, plain_cipher-IsAead, alice, bob, alice_session,
  bob_session, paired, store_with, new_window,
}

abbrev bytes_in : Result Bytes → Bytes
bytes_in (ok bytes) = bytes
bytes_in _ = []

abbrev hello : Bytes
hello = 3 ∷ 4 ∷ []

-- The frame that Alice seals at time 1000.
abbrev sent : Bytes
sent =
    bytes_in
      (seal plain_codec plain_cipher alice alice_session PacketType.chunk_data hello 1000 1).0

sent_lem :
    (seal plain_codec plain_cipher alice alice_session PacketType.chunk_data hello 1000 1).0
    ≡ ok sent
unfolding seal seal_counted seal_payload emit allocate_counter encode_packet pack_header pack_fields
    struct_pack to_be make_header type_value derive_nonce build_aad length_prefixed
    outgoing_direction encode_frame pack_frame_header mark_active
sent_lem = refl

abbrev received : Packet plain_codec
received = record {
  header = stamped plain_codec (make_header PacketType.chunk_data 1 0 1000) hello;
  payload = hello;
}

open-seal_example :
    (session : PeerSession) × ((open_frame plain_codec plain_cipher bob
        (store_with bob_session)
        sent
        1010
        5).0
      ≡ ok (received, session))
unfolding get_by_session_id Dict.lookup beq would_accept slot_of is_set ◌+ℤ◌ ◌-ℤ◌
    check_timestamp_skew
open-seal_example =
    open-seal plain_codec plain_codec-IsFaithful plain_cipher plain_cipher-IsAead alice bob
      alice_session bob_session paired PacketType.chunk_data hello 1000 1 1010 5 sent
      (store_with bob_session) sent_lem refl refl refl

reflected_frame_refused_example :
    (open_frame plain_codec plain_cipher alice (store_with alice_session) sent 1010 5).0
    ≡ err direction_mismatch_error
unfolding get_by_session_id Dict.lookup beq
reflected_frame_refused_example =
    reflected_frame_refused plain_codec plain_cipher alice alice_session alice_session
      PacketType.chunk_data hello 1000 1 1010 5 sent (store_with alice_session) sent_lem refl refl

open_error_changes_nothing_example :
    (open_frame plain_codec plain_cipher bob (store_with bob_session) hello 1010 5).1
    ≡ store_with bob_session
unfolding open_frame check_frame settle split_frame
open_error_changes_nothing_example =
    open_error_changes_nothing plain_codec plain_cipher bob (store_with bob_session) hello 1010 5
      frame_decode_error refl

abbrev bob_after : PeerSession
bob_after =
    confirm_activity (record bob_session { receive_window = (accept new_window (pos 1)).1 }) 5

opened :
    (open_frame plain_codec plain_cipher bob (store_with bob_session) sent 1010 5).0
    ≡ ok (received, bob_after)
unfolding seal seal_counted seal_payload emit allocate_counter encode_packet pack_header pack_fields
    struct_pack to_be make_header type_value derive_nonce build_aad length_prefixed
    outgoing_direction encode_frame pack_frame_header mark_active get_by_session_id Dict.lookup beq
    would_accept slot_of is_set ◌+ℤ◌ ◌-ℤ◌ check_timestamp_skew open_frame check_frame settle
    split_frame unpack_frame_header prefilter authenticate check_packet incoming_direction
    decode_packet unpack_header unpack_fields header_of packet_type_of nonce_counter from_be
    confirm_activity accept advance slide set_bit bit_at slide_bits slide_bit
opened = refl

bob_store-IsTracked : IsTracked (store_with bob_session)
unfolding get_by_session_id Dict.lookup make_window
bob_store-IsTracked = record {
  tracked = λ sid s e.
      subst (λ t. (n : ℕ) × (seen : List ℕ) × Represents n t.receive_window seen)
        (let same : bob_session ≡ s = ground (arith, e) in same)
        (4, [], make_window-Represents 4 new_window refl);
}

abbrev bob_store_after : SessionStore
bob_store_after = (open_frame plain_codec plain_cipher bob (store_with bob_session) sent 1010 5).1

replayed_frame_refused_example :
    (open_frame plain_codec plain_cipher bob
      (open_all plain_codec plain_cipher bob bob_store_after ((hello, 1011, 6) ∷ []))
      sent
      1012
      7).0
    ≡ err replay_window_rejected_error
replayed_frame_refused_example =
    replayed_frame_refused plain_codec plain_cipher bob (store_with bob_session) sent 1010 5 1012 7
      received bob_after ((hello, 1011, 6) ∷ []) bob_store-IsTracked opened

open_ok_is_Checked_example :
    (header : FrameHeader) × (session : PeerSession) × (counter : ℕ) × Checked plain_codec
      plain_cipher bob
      (store_with bob_session)
      sent
      1010
      received
      header
      session
      counter
    × (bob_after
        ≡ confirm_activity
            (record session { receive_window = (accept session.receive_window (pos counter)).1 })
            5)
    × (bob_store_after ≡ replace_session (store_with bob_session) header.session_id bob_after)
open_ok_is_Checked_example =
    open_ok_is_Checked plain_codec plain_cipher bob (store_with bob_session) sent 1010 5 received
      bob_after opened

-- ===== src/Tests/Handshakes.antt =====
-- The handshake of two devices, run on concrete messages.
use secure_sync.Prelude.{◌≡◌, refl, ap, ◌⊎◌, true, Option, some, [], ◌∷◌, ◌++◌, replicate}
use secure_sync.Prelude.Bytes.{beq, to_be, from_be}
use secure_sync.Errors.{Result, ok, err, incomplete_read_error, handshake_rate_limited_error}
use secure_sync.Dict
use secure_sync.Frame.{struct_pack}
use secure_sync.KeySchedule.{derive_directional_keys, common_info}
use secure_sync.KeySchedule
use secure_sync.Curve.{check_public_key, check_shared_secret}
use secure_sync.Messages.{
  validate_version, validate_bytes, validate_port, validate_device_id, check_not_self,
  encode_introduction, encode_hello, encode_confirm,
}
use secure_sync.Messages.Decode.{
  validate_msg_type, take_field, u16, decode_device_id, decode_introduction, check_introduction,
  decode_hello, decode_reply, decode_final,
}
use secure_sync.Messages.Transcript.{
  lp, lp_all, hash_parts, signed_responder, signed_initiator, transcript_t2, transcript_t2s,
  transcript_t3, transcript_t3s, transcript_final, transcript_m4_accept, transcript_m4_reject,
}
use secure_sync.HandshakeKeys.{
  require_size, keys_for_role, derive_secrets, derive_handshake_secrets, confirmation_mac,
  verify_confirmation_mac,
}
use secure_sync.Stream.{read_exactly, read_length_prefixed, frame_message}
use secure_sync.Handshake.{
  HandshakeResult, generate_nonce, check_pin, is_message_error, reraise_final, make_hello,
  read_reply, answer_reply, answer_verified, judge_final, accept_final, refuse_final,
}
use secure_sync.Handshake.World.{World, remaining, as_deadline, read_message, write_message}
use secure_sync.Handshake.Initiator.{
  HandshakeState, idle, failed, open_exchange, send_answer, answer_pinned, answer_exchange,
  await_final, authenticate_peer, conclude, initiate, run_initiator,
}
use secure_sync.Handshake.Initiator.Pins.{run_initiator-err, run_initiator-lookup}
use secure_sync.RateLimit.{GlobalHandshakeLimiter, admit}
use secure_sync.Handshake.Responder.{ResponderState, wait_hello, run_responder, accept}
use secure_sync.Handshake.Responder.HalfOpen.{accept-half_open}
use secure_sync.Handshake.Responder.Pins.{run_responder-lookup}
use secure_sync.Handshake.Agreement.{Completed, handshake_completes}
use secure_sync.Tests.Parties.{
  plain, plain_kdf-IsKdf, caller, callee, caller_keys, callee_keys, two_devices, message_1,
  message_2, message_3, message_4, start,
}

handshake_completes_example : Completed two_devices
handshake_completes_example = handshake_completes two_devices

-- Messages 2 and 4 arrive, and message 2 alone.
abbrev answered : World HandshakeState
answered = start idle ((0 ∷ 0 ∷ 0 ∷ 201 ∷ message_2) ++ (0 ∷ 0 ∷ 0 ∷ 35 ∷ message_4))

abbrev cut_off : World HandshakeState
cut_off = start idle (0 ∷ 0 ∷ 0 ∷ 201 ∷ message_2)

abbrev session : HandshakeResult
session = record {
  peer_device_id = 66 ∷ [];
  session_id = replicate 8 7;
  role = 0;
  send_key = replicate 32 7;
  receive_key = replicate 32 7;
  peer_transfer_port = 8000;
  peer_manifest_port = 8001;
}

cut_off_lem : (run_initiator plain caller caller_keys cut_off).0 ≡ err incomplete_read_error
unfolding run_initiator initiate authenticate_peer open_exchange send_answer answer_pinned
    answer_exchange await_final conclude remaining as_deadline read_message write_message
    generate_nonce check_pin is_message_error reraise_final make_hello read_reply answer_reply
    answer_verified judge_final accept_final refuse_final read_exactly read_length_prefixed
    frame_message require_size keys_for_role derive_secrets derive_handshake_secrets
    confirmation_mac verify_confirmation_mac lp lp_all hash_parts signed_responder signed_initiator
    transcript_t2 transcript_t2s transcript_t3 transcript_t3s transcript_final transcript_m4_accept
    transcript_m4_reject validate_msg_type take_field u16 decode_device_id decode_introduction
    check_introduction decode_hello decode_reply decode_final validate_version validate_bytes
    validate_port validate_device_id check_not_self encode_introduction encode_hello encode_confirm
    check_public_key check_shared_secret derive_directional_keys common_info
    KeySchedule.length_prefixed struct_pack beq to_be from_be Dict.lookup Dict.insert
cut_off_lem = refl

run_initiator-err_example :
    ((run_initiator plain caller caller_keys cut_off).1.trusted ≡ cut_off.trusted)
    × ((run_initiator plain caller caller_keys cut_off).1.state ≡ failed)
run_initiator-err_example =
    run_initiator-err plain caller plain_kdf-IsKdf caller_keys cut_off
      (run_initiator plain caller caller_keys cut_off).1 incomplete_read_error
      (ap (λ r. (r, (run_initiator plain caller caller_keys cut_off).1)) cut_off_lem)

run_initiator-lookup_example :
    Dict.lookup (67 ∷ []) (run_initiator plain caller caller_keys answered).1.trusted
    ≡ some (replicate 32 16)
unfolding Dict.lookup beq
run_initiator-lookup_example =
    run_initiator-lookup plain caller caller_keys answered (67 ∷ []) (replicate 32 16) refl

-- Messages 1 and 3 arrive.
abbrev called : World ResponderState
called = start wait_hello ((0 ∷ 0 ∷ 0 ∷ 105 ∷ message_1) ++ (0 ∷ 0 ∷ 0 ∷ 98 ∷ message_3))

abbrev record_it : Option (HandshakeResult → Result (Unit {0}))
record_it = some (λ r. ok tt)

run_responder-lookup_example :
    Dict.lookup (67 ∷ []) (run_responder plain callee record_it callee_keys called).1.trusted
    ≡ some (replicate 32 16)
unfolding Dict.lookup beq
run_responder-lookup_example =
    run_responder-lookup plain callee record_it callee_keys called (67 ∷ []) (replicate 32 16) refl

-- A limiter that has one admission left.
abbrev bucket : GlobalHandshakeLimiter
bucket = record { rate = 1; burst = 1; whole = 1; tokens = 1; last = 0 }

accept-half_open_example :
    ((accept plain callee record_it bucket 0 callee_keys called).0.1.half_open ≡ 0)
    × (((admit bucket 0).0 ≡ true)
        ⊎ ((accept plain callee record_it bucket 0 callee_keys called).0
            ≡ (err handshake_rate_limited_error, called)))
accept-half_open_example = accept-half_open plain callee record_it bucket 0 callee_keys called

-- ===== src/Tests/Flights.antt =====
-- The messages of a handshake, one at a time.
use secure_sync.Prelude.{◌≡◌, refl, true, [], ◌∷◌, ◌++◌, replicate, arith, ltb, Bool, ◌&&◌}
use secure_sync.Prelude.Bytes.{Bytes, IsBytes, beq, to_be, from_be}
use secure_sync.Errors.{ok, err, handshake_rejected_error, incomplete_read_error}
use secure_sync.Frame.{struct_pack}
use secure_sync.KeySchedule
use secure_sync.Curve.{check_public_key}
use secure_sync.Messages.{
  HelloMessage, ReplyMessage, FinalMessage, validate_version, validate_bytes, validate_port,
  validate_device_id, encode_introduction, encode_hello, encode_reply_body, encode_reply,
  encode_final,
}
use secure_sync.Messages.Decode.{
  validate_msg_type, take_field, u16, decode_device_id, decode_introduction, check_introduction,
  decode_hello, decode_reply, decode_final,
}
use secure_sync.Messages.RoundTrip.{decode_reply-encode_reply}
use secure_sync.Messages.Canonical.{encode_hello-decode_hello}
use secure_sync.Messages.Transcript.{lp, lp_all, hash_parts, transcript_m4_reject}
use secure_sync.HandshakeKeys.{HandshakeSecrets, require_size, confirmation_mac}
use secure_sync.Stream.{closed, read_length_prefixed, frame_message}
use secure_sync.Stream.Framing.{read-frame_message, arriving}
use secure_sync.Handshake.{Answered, Replied, introduce, make_reject, judge_final}
use secure_sync.Handshake.Verdict.{IsVerdict, judge_final-IsVerdict, judge_final-make_reject}
use secure_sync.Handshake.Agreement.{handshake_completes}
use secure_sync.Tests.Parties.{
  plain, caller, callee, callee_keys, two_devices, message_1, message_2, message_3,
}

judge_final-IsVerdict_example :
    IsVerdict two_devices.p two_devices.i two_devices.r
      (handshake_completes two_devices).answered
      (handshake_completes two_devices).final
judge_final-IsVerdict_example =
    judge_final-IsVerdict two_devices.p two_devices.i two_devices.r
      (handshake_completes two_devices).answered (handshake_completes two_devices).final
      (handshake_completes two_devices).final_judged

abbrev secrets : HandshakeSecrets
secrets = record {
  master = replicate 32 7;
  responder_confirmation_key = replicate 32 7;
  initiator_confirmation_key = replicate 32 7;
  session_id = replicate 8 7;
  initiator_to_responder_key = replicate 32 7;
  responder_to_initiator_key = replicate 32 7;
}

abbrev reply : ReplyMessage
reply = record {
  version = 3;
  introduction = introduce callee callee_keys.public_key callee_keys.nonce;
  sig_r = replicate 64 3;
  mac_r = replicate 32 2;
  body = [];
  raw = message_2;
}

abbrev waiting : Answered
waiting = record {
  reply = reply;
  secrets = secrets;
  t2s = replicate 32 1;
  t3s = replicate 32 1;
  mac_i = replicate 32 2;
  confirm_bytes = message_3;
}

abbrev refusing : Replied
refusing = record {
  secrets = secrets;
  t2s = replicate 32 1;
  mac_r = replicate 32 2;
  reply_bytes = message_2;
}

judge_final-make_reject_example :
    (final : FinalMessage) × (decode_final (3 ∷ 4 ∷ 1 ∷ replicate 32 2) ≡ ok final)
    × (judge_final plain caller waiting final ≡ err handshake_rejected_error)
unfolding make_reject confirmation_mac require_size transcript_m4_reject hash_parts lp_all lp
    KeySchedule.length_prefixed to_be encode_final validate_version validate_bytes
judge_final-make_reject_example =
    judge_final-make_reject plain caller callee waiting refusing (3 ∷ 4 ∷ 1 ∷ replicate 32 2) refl
      refl refl

abbrev callee_body : Bytes
callee_body =
    3
    ∷ 2
    ∷ (replicate 32 8
        ++ (replicate 32 15 ++ (0 ∷ 1 ∷ 66 ∷ (replicate 32 5 ++ (31 ∷ 64 ∷ 31 ∷ 65 ∷ [])))))

decode_reply-encode_reply_example :
    decode_reply plain.unicode message_2
    ≡ ok (record {
      version = 3;
      introduction = introduce callee callee_keys.public_key callee_keys.nonce;
      sig_r = replicate 64 3;
      mac_r = replicate 32 2;
      body = callee_body;
      raw = message_2;
    })
unfolding encode_reply encode_reply_body encode_introduction validate_version validate_bytes
    validate_port validate_device_id to_be check_public_key beq
decode_reply-encode_reply_example =
    decode_reply-encode_reply plain.unicode 3
      (introduce callee callee_keys.public_key callee_keys.nonce) (replicate 64 3) (replicate 32 2)
      callee_body message_2 refl refl refl

abbrev caller_hello : HelloMessage
caller_hello = record {
  version = 3;
  introduction = introduce caller (replicate 32 6) (replicate 32 13);
  raw = message_1;
}

abbrev all_bytes : Bytes → Bool
all_bytes [] = true
all_bytes (b ∷ bs) = ltb b 256 && all_bytes bs

all_bytes-IsBytes : (bs : Bytes) → all_bytes bs ≡ true → IsBytes bs
all_bytes-IsBytes [] h = tt
all_bytes-IsBytes (b ∷ bs) h = (ground (arith, h), all_bytes-IsBytes bs (ground (arith, h)))

encode_hello-decode_hello_example :
    (encode_hello plain.unicode 3 (introduce caller (replicate 32 6) (replicate 32 13))
      ≡ ok message_1)
    × (message_1 ≡ message_1)
unfolding validate_msg_type take_field u16 decode_device_id decode_introduction check_introduction
    decode_hello validate_version validate_port to_be from_be check_public_key beq
encode_hello-decode_hello_example =
    encode_hello-decode_hello plain.unicode message_1 caller_hello
      (all_bytes-IsBytes message_1 refl) refl

-- Two bytes for a reader of at most eight, of which only the first has arrived after the prefix.
read-frame_message_example :
    (read_length_prefixed 8 (arriving ((0 ∷ 0 ∷ 0 ∷ 2 ∷ 5 ∷ 6 ∷ []) ++ (7 ∷ [])) closed)
      ≡ ok (5 ∷ 6 ∷ [], arriving (7 ∷ []) closed))
    × (read_length_prefixed 8 (arriving (0 ∷ 0 ∷ 0 ∷ 2 ∷ 7 ∷ []) closed)
        ≡ err incomplete_read_error)
unfolding frame_message struct_pack to_be
read-frame_message_example =
    read-frame_message (5 ∷ 6 ∷ []) (0 ∷ 0 ∷ 0 ∷ 2 ∷ 5 ∷ 6 ∷ []) (7 ∷ []) 8 closed refl

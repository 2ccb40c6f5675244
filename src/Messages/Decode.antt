-- ===== src/Messages/Decode.antt =====
-- The decoders of src/securesync/infrastructure/networking/handshake_messages.py.
use secure_sync.Prelude.{
  ℕ, ◌+◌, not, ◌&&◌, ◌||◌, length, take, slice, get_or, ◌==◌, ltb, leb, if◌then◌else◌,
}
use secure_sync.Prelude.Bytes.{Bytes, from_be}
use secure_sync.Errors.{
  Result, ok, err, ◌>>=◌, ◌>>◌, guard, handshake_decode_error, handshake_validation_error,
}
use secure_sync.Curve.{x25519_key_size, check_public_key}
use secure_sync.Messages.{
  Introduction, HelloMessage, ReplyMessage, ConfirmMessage, FinalMessage, Unicode, validate_version,
  validate_port, msg_hello, msg_reply, msg_confirm, msg_final, status_accept, status_reject,
  max_device_id_bytes, handshake_nonce_size, ed25519_public_key_size, ed25519_signature_size,
  mac_size,
}

unfoldable pub validate_msg_type : Bytes → ℕ → Result (Unit {0})
unfolding validate_version
validate_msg_type message expected =
    guard (leb 2 (length message)) handshake_decode_error
    >> validate_version (get_or message 0 0)
    >> guard (get_or message 1 0 == expected) handshake_decode_error

unfoldable pub take_field : Bytes → ℕ → ℕ → Result Bytes
take_field message offset size =
    if ltb (length message) (offset + size)
    then err handshake_decode_error
    else ok (slice offset (offset + size) message)

unfoldable pub u16 : Bytes → ℕ → Result ℕ
u16 message offset =
    if ltb (length message) (offset + 2)
    then err handshake_decode_error
    else ok (from_be (slice offset (offset + 2) message))

module _ (unicode : Unicode) where
  open unicode use {is_utf8, has_control}

  -- `_decode_device_id` makes the same tests in the same order.
  unfoldable pub decode_device_id : Bytes → Result Bytes
  decode_device_id raw =
      guard (is_utf8 raw) handshake_validation_error
      >> guard (not (length raw == 0)) handshake_validation_error
      >> guard (leb (length raw) max_device_id_bytes) handshake_validation_error
      >> guard (not (has_control raw)) handshake_validation_error
      >> ok raw

  -- The fields that `decode_hello` and `decode_reply` both read from offset 2 on, and the offset after
  -- them. The ports are checked later.
  unfoldable pub decode_introduction : Bytes → Result (Introduction × ℕ)
  unfolding take_field u16 decode_device_id
  decode_introduction message = do
    ephemeral ← take_field message 2 x25519_key_size
    nonce ← take_field message 34 handshake_nonce_size
    id_len ← u16 message 66
    guard (leb 1 id_len && leb id_len max_device_id_bytes) handshake_validation_error
    raw_id ← take_field message 68 id_len
    device_id ← decode_device_id raw_id
    identity_public_key ← take_field message (68 + id_len) ed25519_public_key_size
    transfer_port ← u16 message (100 + id_len)
    manifest_port ← u16 message (102 + id_len)
    ok (
      record {
        ephemeral = ephemeral;
        nonce = nonce;
        device_id = device_id;
        identity_public_key = identity_public_key;
        transfer_port = transfer_port;
        manifest_port = manifest_port;
      },
      104 + id_len,
    )

  -- The checks that both decoders make last.
  unfoldable pub check_introduction : Introduction → Result (Unit {0})
  unfolding validate_port check_public_key
  check_introduction m =
      validate_port m.transfer_port >> validate_port m.manifest_port >> check_public_key m.ephemeral

  unfoldable pub decode_hello : Bytes → Result HelloMessage
  unfolding validate_msg_type decode_introduction check_introduction
  decode_hello message = do
    validate_msg_type message msg_hello
    (m, offset) ← decode_introduction message
    guard (offset == length message) handshake_decode_error
    check_introduction m
    ok (record { version = get_or message 0 0; introduction = m; raw = message })

  unfoldable pub decode_reply : Bytes → Result ReplyMessage
  unfolding validate_msg_type decode_introduction check_introduction take_field
  decode_reply message = do
    validate_msg_type message msg_reply
    (m, body_end) ← decode_introduction message
    sig_r ← take_field message body_end ed25519_signature_size
    mac_r ← take_field message (body_end + ed25519_signature_size) mac_size
    guard (body_end + ed25519_signature_size + mac_size == length message) handshake_decode_error
    check_introduction m
    ok (record {
      version = get_or message 0 0;
      introduction = m;
      sig_r = sig_r;
      mac_r = mac_r;
      body = take body_end message;
      raw = message;
    })

unfoldable pub decode_confirm : Bytes → Result ConfirmMessage
unfolding validate_msg_type take_field
decode_confirm message = do
  validate_msg_type message msg_confirm
  sig_i ← take_field message 2 ed25519_signature_size
  mac_i ← take_field message 66 mac_size
  guard (98 == length message) handshake_decode_error
  ok (record { version = get_or message 0 0; sig_i = sig_i; mac_i = mac_i; raw = message })

unfoldable pub decode_final : Bytes → Result FinalMessage
unfolding validate_msg_type take_field
decode_final message = do
  validate_msg_type message msg_final
  status_bytes ← take_field message 2 1
  let status = get_or status_bytes 0 0
  guard (status == status_accept || status == status_reject) handshake_validation_error
  mac_f ← take_field message 3 mac_size
  guard (35 == length message) handshake_decode_error
  ok (record { version = get_or message 0 0; status = status; mac_f = mac_f; raw = message })

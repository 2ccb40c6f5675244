-- ===== src/Messages.antt =====
-- The wire messages of src/securesync/infrastructure/networking/handshake_messages.py: encoders and
-- decoders. A device identifier, a `str` in Python, is its UTF-8 bytes; what `str` and `unicodedata`
-- decide about it is a parameter.
pub mod Transcript
pub mod Decode
pub mod Fields
pub mod RoundTrip
pub mod Verdicts
pub mod Canonical
use secure_sync.Prelude.{
  ℕ, ◌+◌, Bool, not, ◌&&◌, ◌||◌, List, [], ◌∷◌, ◌++◌, length, take, drop, slice, get_or, ◌==◌, ltb,
  leb, if◌then◌else◌,
}
use secure_sync.Prelude.Bytes.{Bytes, beq, to_be, from_be}
use secure_sync.Errors.{
  Result, ok, err, ◌>>=◌, ◌>>◌, guard, unsupported_version_error, handshake_decode_error,
  handshake_validation_error,
}
use secure_sync.Curve.{x25519_key_size, check_public_key}

abbrev pub handshake_version : ℕ
handshake_version = 3

abbrev pub msg_hello : ℕ
msg_hello = 0x01

abbrev pub msg_reply : ℕ
msg_reply = 0x02

abbrev pub msg_confirm : ℕ
msg_confirm = 0x03

abbrev pub msg_final : ℕ
msg_final = 0x04

abbrev pub status_accept : ℕ
status_accept = 0x00

abbrev pub status_reject : ℕ
status_reject = 0x01

abbrev pub max_device_id_bytes : ℕ
max_device_id_bytes = 64

abbrev pub max_port : ℕ
max_port = 65535

abbrev pub handshake_nonce_size : ℕ
handshake_nonce_size = 32

abbrev pub ed25519_public_key_size : ℕ
ed25519_public_key_size = 32

abbrev pub ed25519_signature_size : ℕ
ed25519_signature_size = 64

abbrev pub mac_size : ℕ
mac_size = 32

-- What the fields of HELLO and of the REPLY's body have in common: the ephemeral key, the nonce and the
-- sender's identity and ports.
pub record Introduction : Type 0 where
  pub ephemeral : Bytes
  pub nonce : Bytes
  pub device_id : Bytes
  pub identity_public_key : Bytes
  pub transfer_port : ℕ
  pub manifest_port : ℕ

pub record HelloMessage : Type 0 where
  pub version : ℕ
  pub introduction : Introduction
  pub open introduction use *
  pub raw : Bytes

pub record ReplyMessage : Type 0 where
  pub version : ℕ
  pub introduction : Introduction
  pub open introduction use *
  pub sig_r : Bytes
  pub mac_r : Bytes
  pub body : Bytes
  pub raw : Bytes

pub record ConfirmMessage : Type 0 where
  pub version : ℕ
  pub sig_i : Bytes
  pub mac_i : Bytes
  pub raw : Bytes

pub record FinalMessage : Type 0 where
  pub version : ℕ
  pub status : ℕ
  pub mac_f : Bytes
  pub raw : Bytes

unfoldable pub validate_version : ℕ → Result (Unit {0})
validate_version version = guard (version == handshake_version) unsupported_version_error

-- The tests of Python's `str` and `unicodedata` on the bytes of an identifier: strict UTF-8, and a
-- character of category Cc.
pub record Unicode : Type 0 where
  pub is_utf8 : Bytes → Bool
  pub has_control : Bytes → Bool

-- A port is an integer here; below 0 it would be refused as 0 is.
unfoldable pub validate_port : ℕ → Result (Unit {0})
validate_port port = guard (leb 1 port && leb port max_port) handshake_validation_error

unfoldable pub validate_bytes : Bytes → ℕ → Result (Unit {0})
validate_bytes value size = guard (length value == size) handshake_validation_error

unfoldable pub check_not_self : (peer_id peer_key own_id own_key : Bytes) → Result (Unit {0})
check_not_self peer_id peer_key own_id own_key =
    guard (not (beq peer_id own_id)) handshake_validation_error
    >> guard (not (beq peer_key own_key)) handshake_validation_error

module _ (unicode : Unicode) where
  open unicode use {is_utf8, has_control}

  -- `_validate_device_id`, whose result is the identifier's bytes.
  unfoldable pub validate_device_id : Bytes → Result Bytes
  validate_device_id device_id =
      guard (is_utf8 device_id) handshake_validation_error
      >> guard (not (length device_id == 0)) handshake_validation_error
      >> guard (leb (length device_id) max_device_id_bytes) handshake_validation_error
      >> guard (not (has_control device_id)) handshake_validation_error
      >> ok device_id

  -- What `encode_hello` and `encode_reply_body` do, but for the message type.
  unfoldable pub encode_introduction : ℕ → ℕ → Introduction → Result Bytes
  unfolding validate_version validate_bytes validate_port validate_device_id
  encode_introduction version msg_type m = do
    validate_version version
    validate_bytes m.ephemeral x25519_key_size
    validate_bytes m.nonce handshake_nonce_size
    validate_bytes m.identity_public_key ed25519_public_key_size
    validate_port m.transfer_port
    validate_port m.manifest_port
    id ← validate_device_id m.device_id
    ok (
        version
        ∷ msg_type
        ∷ (m.ephemeral
            ++ (m.nonce
                ++ (to_be 2 (length id)
                    ++ (id
                        ++ (m.identity_public_key
                            ++ (to_be 2 m.transfer_port ++ to_be 2 m.manifest_port)))))))

  unfoldable pub encode_hello : ℕ → Introduction → Result Bytes
  unfolding encode_introduction
  encode_hello version m = encode_introduction version msg_hello m

  unfoldable pub encode_reply_body : ℕ → Introduction → Result Bytes
  unfolding encode_introduction
  encode_reply_body version m = encode_introduction version msg_reply m

  unfoldable pub encode_reply : ℕ → Introduction → (sig_r mac_r : Bytes) → Result Bytes
  unfolding validate_bytes encode_reply_body
  encode_reply version m sig_r mac_r = do
    validate_bytes sig_r ed25519_signature_size
    validate_bytes mac_r mac_size
    body ← encode_reply_body version m
    ok (body ++ (sig_r ++ mac_r))

unfoldable pub encode_confirm : ℕ → (sig_i mac_i : Bytes) → Result Bytes
unfolding validate_version validate_bytes
encode_confirm version sig_i mac_i = do
  validate_version version
  validate_bytes sig_i ed25519_signature_size
  validate_bytes mac_i mac_size
  ok (version ∷ msg_confirm ∷ (sig_i ++ mac_i))

unfoldable pub encode_final : ℕ → ℕ → Bytes → Result Bytes
unfolding validate_version validate_bytes
encode_final version status mac_f = do
  validate_version version
  guard (status == status_accept || status == status_reject) handshake_validation_error
  validate_bytes mac_f mac_size
  ok (version ∷ msg_final ∷ status ∷ mac_f)

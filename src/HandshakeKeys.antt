-- ===== src/HandshakeKeys.antt =====
-- src/securesync/infrastructure/networking/handshake_keys.py: the secrets of a v3 handshake, and its
-- confirmation MACs. HKDF and HMAC are parameters.
use secure_sync.Prelude.{ℕ, [], ◌∷◌, ◌++◌, length, ◌==◌, if◌then◌else◌}
use secure_sync.Prelude.Bytes.{Bytes, beq}
use secure_sync.Errors.{
  Result, ok, err, ◌>>=◌, ◌>>◌, guard, handshake_key_error, key_confirmation_error,
}
use secure_sync.Frame.{role_initiator, role_responder, session_id_size}
use secure_sync.Curve.{x25519_key_size, check_shared_secret}
use secure_sync.KeySchedule.{Kdf, key_size, SessionKeys, derive_directional_keys, length_prefixed}
use secure_sync.Messages.{HelloMessage, ReplyMessage, handshake_nonce_size, mac_size}

abbrev pub secret_size : ℕ
secret_size = 32

abbrev pub transcript_size : ℕ
transcript_size = 32

abbrev pub handshake_master_info : Bytes
handshake_master_info =
    b's' ∷ b'e' ∷ b'c' ∷ b'u' ∷ b'r' ∷ b'e' ∷ b's' ∷ b'y' ∷ b'n' ∷ b'c' ∷ b'-' ∷ b'1' ∷ b'e' ∷ b'-'
    ∷ b'm' ∷ b'a' ∷ b's' ∷ b't' ∷ b'e' ∷ b'r' ∷ []

abbrev pub responder_confirm_info : Bytes
responder_confirm_info =
    b's' ∷ b'e' ∷ b'c' ∷ b'u' ∷ b'r' ∷ b'e' ∷ b's' ∷ b'y' ∷ b'n' ∷ b'c' ∷ b'-' ∷ b'1' ∷ b'e' ∷ b'-'
    ∷ b'k' ∷ b'r' ∷ []

abbrev pub initiator_confirm_info : Bytes
initiator_confirm_info =
    b's' ∷ b'e' ∷ b'c' ∷ b'u' ∷ b'r' ∷ b'e' ∷ b's' ∷ b'y' ∷ b'n' ∷ b'c' ∷ b'-' ∷ b'1' ∷ b'e' ∷ b'-'
    ∷ b'k' ∷ b'i' ∷ []

abbrev pub handshake_session_id_info : Bytes
handshake_session_id_info =
    b's' ∷ b'e' ∷ b'c' ∷ b'u' ∷ b'r' ∷ b'e' ∷ b's' ∷ b'y' ∷ b'n' ∷ b'c' ∷ b'-' ∷ b'1' ∷ b'e' ∷ b'-'
    ∷ b's' ∷ b'i' ∷ b'd' ∷ []

pub record HandshakeSecrets : Type 0 where
  pub master : Bytes
  pub responder_confirmation_key : Bytes
  pub initiator_confirmation_key : Bytes
  pub session_id : Bytes
  pub initiator_to_responder_key : Bytes
  pub responder_to_initiator_key : Bytes

unfoldable pub require_size : Bytes → ℕ → Result (Unit {0})
require_size value size = guard (length value == size) handshake_key_error

unfoldable pub keys_for_role : HandshakeSecrets → ℕ → Result SessionKeys
unfolding require_size
keys_for_role secrets role = do
  require_size secrets.session_id session_id_size
  (if role == role_initiator
      then ok (record {
        session_id = secrets.session_id;
        send_key = secrets.initiator_to_responder_key;
        receive_key = secrets.responder_to_initiator_key;
        role = role;
      })
      else if role == role_responder
      then ok (record {
        session_id = secrets.session_id;
        send_key = secrets.responder_to_initiator_key;
        receive_key = secrets.initiator_to_responder_key;
        role = role;
      })
      else err handshake_key_error)

module _ (kdf : Kdf) where
  open kdf use {derive}

  -- What the derivation takes from the two messages: identifiers, ephemeral keys and nonces.
  unfoldable pub derive_secrets :
      (shared_secret id_i e_i n_i id_r e_r n_r transcript_t2 : Bytes) → Result HandshakeSecrets
  unfolding require_size check_shared_secret length_prefixed derive_directional_keys
  derive_secrets shared_secret id_i e_i n_i id_r e_r n_r transcript_t2 = do
    require_size shared_secret x25519_key_size
    check_shared_secret shared_secret
    require_size transcript_t2 transcript_size
    require_size n_i handshake_nonce_size
    require_size n_r handshake_nonce_size
    salt_i ← length_prefixed n_i
    salt_r ← length_prefixed n_r
    master_label ← length_prefixed handshake_master_info
    let master = derive shared_secret (salt_i ++ salt_r) (master_label ++ transcript_t2) secret_size
    k_r ← length_prefixed responder_confirm_info
    k_i ← length_prefixed initiator_confirm_info
    sid ← length_prefixed handshake_session_id_info
    let session_id = derive master [] sid session_id_size
    (i2r, r2i) ← derive_directional_keys kdf master id_i id_r session_id e_i e_r
    ok (record {
      master = master;
      responder_confirmation_key = derive master [] k_r secret_size;
      initiator_confirmation_key = derive master [] k_i secret_size;
      session_id = session_id;
      initiator_to_responder_key = i2r;
      responder_to_initiator_key = r2i;
    })

  unfoldable pub derive_handshake_secrets :
      Bytes → HelloMessage → ReplyMessage → Bytes → Result HandshakeSecrets
  unfolding derive_secrets
  derive_handshake_secrets shared_secret hello reply transcript_t2 =
      derive_secrets shared_secret hello.device_id hello.ephemeral hello.nonce reply.device_id
        reply.ephemeral reply.nonce transcript_t2

module _ (hmac_sha256 : (key message : Bytes) → Bytes) where
  unfoldable pub confirmation_mac : (key transcript : Bytes) → Result Bytes
  unfolding require_size
  confirmation_mac key transcript = do
    require_size key key_size
    require_size transcript transcript_size
    ok (hmac_sha256 key transcript)

  unfoldable pub verify_confirmation_mac : (key transcript received : Bytes) → Result (Unit {0})
  unfolding require_size confirmation_mac
  verify_confirmation_mac key transcript received = do
    require_size received mac_size
    expected ← confirmation_mac key transcript
    guard (beq expected received) key_confirmation_error

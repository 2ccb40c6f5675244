-- ===== src/Handshake.antt =====
-- The v3 handshake of src/securesync/infrastructure/networking/handshake_v3.py: what each side computes
-- and checks for a flight, as functions of the messages. The cryptographic providers are parameters.
pub mod World
pub mod Trust
pub mod Honest
pub mod Verdict
pub mod Opening
pub mod Agreement
pub mod Initiator
pub mod Responder
use secure_sync.Prelude.{
  ℕ, Bool, not, true, false, ◌==◌, Option, none, some, List, [], ◌∷◌, ◌++◌, length, replicate,
  if◌then◌else◌,
}
use secure_sync.Prelude.Bytes.{Bytes, beq}
use secure_sync.Errors.{
  Error, Result, ok, err, ◌>>=◌, ◌>>◌, guard, handshake_decode_error, handshake_validation_error,
  handshake_state_error, handshake_rejected_error, handshake_rejection_unverified_error,
  invalid_handshake_signature_error, peer_identity_mismatch_error,
}
use secure_sync.KeySchedule.{Kdf, SessionKeys}
use secure_sync.Messages.{
  Introduction, HelloMessage, ReplyMessage, ConfirmMessage, FinalMessage, Unicode,
  handshake_version, handshake_nonce_size, mac_size, status_accept, status_reject, check_not_self,
  encode_hello, encode_reply_body, encode_reply, encode_confirm, encode_final,
}
use secure_sync.Messages.Decode.{decode_hello, decode_reply, decode_confirm, decode_final}
use secure_sync.Messages.Transcript.{
  signed_responder, signed_initiator, transcript_t2, transcript_t2s, transcript_t3, transcript_t3s,
  transcript_final, transcript_m4_accept, transcript_m4_reject,
}
use secure_sync.HandshakeKeys.{
  HandshakeSecrets, derive_handshake_secrets, confirmation_mac, verify_confirmation_mac,
}

-- The primitives: `KeyExchangeProvider` and `IdentityProvider` of the domain, and the hash functions.
pub record Primitives : Type 0 where
  pub unicode : Unicode
  pub kdf : Kdf
  pub sha256 : Bytes → Bytes
  pub hmac_sha256 : (key message : Bytes) → Bytes
  pub derive_shared_secret : (private_key public_key : Bytes) → Result Bytes
  pub sign : (private_key message : Bytes) → Bytes
  pub verify : (public_key message signature : Bytes) → Bool

-- The configuration of `HandshakeV3`.
pub record HandshakeV3 : Type 0 where
  pub own_device_id : Bytes
  pub own_transfer_port : ℕ
  pub own_manifest_port : ℕ
  pub identity_public_key : Bytes
  pub identity_private_key : Bytes
  pub max_half_open : ℕ

-- What `generate_key_pair` and the nonce factory give to one exchange.
pub record Ephemeral : Type 0 where
  pub private_key : Bytes
  pub public_key : Bytes
  pub nonce : Bytes

-- `HandshakeResult` of x25519_handshake.py
pub record HandshakeResult : Type 0 where
  pub peer_device_id : Bytes
  pub session_id : Bytes
  pub role : ℕ
  pub send_key : Bytes
  pub receive_key : Bytes
  pub peer_transfer_port : ℕ
  pub peer_manifest_port : ℕ

-- `generate_nonce`
unfoldable pub generate_nonce : Ephemeral → Result Bytes
generate_nonce eph =
    guard (length eph.nonce == handshake_nonce_size) handshake_state_error >> ok eph.nonce

-- The fields that a device sends about itself.
abbrev pub introduce : HandshakeV3 → Bytes → Bytes → Introduction
introduce owner public_key nonce = record {
  ephemeral = public_key;
  nonce = nonce;
  device_id = owner.own_device_id;
  identity_public_key = owner.identity_public_key;
  transfer_port = owner.own_transfer_port;
  manifest_port = owner.own_manifest_port;
}

-- Trust on first use: a device that was trusted with another key is refused.
unfoldable pub check_pin : Option Bytes → Bytes → Result (Unit {0})
check_pin none presented = ok tt
check_pin (some trusted) presented = guard (beq trusted presented) peer_identity_mismatch_error

-- `except HandshakeMessageError`: the two subclasses.
unfoldable pub is_message_error : Error → Bool
is_message_error handshake_decode_error = true
is_message_error handshake_validation_error = true
is_message_error _ = false

-- A `FinalMessage` that cannot be parsed is an unverified rejection.
unfoldable pub reraise_final : Result FinalMessage → Result FinalMessage
reraise_final (ok final) = ok final
reraise_final (err e) =
    if is_message_error e then err handshake_rejection_unverified_error else err e

-- What the initiator holds after it has verified message 2 and made message 3.
pub record Answered : Type 0 where
  pub reply : ReplyMessage
  pub secrets : HandshakeSecrets
  pub t2s : Bytes
  pub t3s : Bytes
  pub mac_i : Bytes
  pub confirm_bytes : Bytes

-- What the responder holds after it has made message 2.
pub record Replied : Type 0 where
  pub secrets : HandshakeSecrets
  pub t2s : Bytes
  pub mac_r : Bytes
  pub reply_bytes : Bytes

abbrev pub result_of : Bytes → ℕ → ℕ → SessionKeys → HandshakeResult
result_of peer_id transfer_port manifest_port keys = record {
  peer_device_id = peer_id;
  session_id = keys.session_id;
  role = keys.role;
  send_key = keys.send_key;
  receive_key = keys.receive_key;
  peer_transfer_port = transfer_port;
  peer_manifest_port = manifest_port;
}

module _ (p : Primitives) (owner : HandshakeV3) where
  open p use {unicode, kdf, sha256, hmac_sha256, derive_shared_secret, sign, verify}

  -- The initiator's message 1.
  unfoldable pub make_hello : Ephemeral → Result Bytes
  unfolding generate_nonce
  make_hello eph = do
    nonce ← generate_nonce eph
    encode_hello unicode handshake_version (introduce owner eph.public_key nonce)

  -- Message 2 decoded, and the checks of who sent it.
  unfoldable pub read_reply : Bytes → Result ReplyMessage
  read_reply reply_bytes = do
    reply ← decode_reply unicode reply_bytes
    check_not_self reply.device_id reply.identity_public_key owner.own_device_id
        owner.identity_public_key
    ok reply

  -- The initiator from the key exchange to message 3.
  unfoldable pub answer_verified : Ephemeral → HelloMessage → ReplyMessage → Bytes → Result Answered
  answer_verified eph hello reply t2 = do
    shared ← derive_shared_secret eph.private_key reply.ephemeral
    secrets ← derive_handshake_secrets kdf shared hello reply t2
    t2s ← transcript_t2s sha256 t2 reply.sig_r
    verify_confirmation_mac hmac_sha256 secrets.responder_confirmation_key t2s reply.mac_r
    t3 ← transcript_t3 sha256 t2s reply.mac_r
    to_sign ← signed_initiator t2s
    let sig_i = sign owner.identity_private_key to_sign
    t3s ← transcript_t3s sha256 t3 sig_i
    mac_i ← confirmation_mac hmac_sha256 secrets.initiator_confirmation_key t3s
    confirm_bytes ← encode_confirm handshake_version sig_i mac_i
    ok (record {
      reply = reply;
      secrets = secrets;
      t2s = t2s;
      t3s = t3s;
      mac_i = mac_i;
      confirm_bytes = confirm_bytes;
    })

  -- The initiator from the verification of message 2 to message 3, given the key that is pinned for the
  -- peer. `hello_bytes` are the bytes that were sent.
  unfoldable pub answer_reply : Ephemeral → Bytes → ReplyMessage → Option Bytes → Result Answered
  unfolding check_pin answer_verified
  answer_reply eph hello_bytes reply trusted = do
    hello ← decode_hello unicode hello_bytes
    t2 ← transcript_t2 sha256 hello_bytes reply.body
    signed ← signed_responder t2
    guard (verify reply.identity_public_key signed reply.sig_r) invalid_handshake_signature_error
    check_pin trusted reply.identity_public_key
    answer_verified eph hello reply t2

  -- `_require_authenticated_reject` and the error that follows it.
  unfoldable pub refuse_final : Answered → FinalMessage → Result (Unit {0})
  refuse_final a final = do
    transcript ← transcript_m4_reject sha256 a.t2s a.confirm_bytes
    expected ← confirmation_mac hmac_sha256 a.secrets.responder_confirmation_key transcript
    guard (beq expected final.mac_f) handshake_rejection_unverified_error
    err handshake_rejected_error

  -- The verification of an accepting message 4.
  unfoldable pub accept_final : Answered → FinalMessage → Result (Unit {0})
  accept_final a final = do
    t_final ← transcript_final sha256 a.t3s a.mac_i
    transcript ← transcript_m4_accept sha256 t_final
    verify_confirmation_mac hmac_sha256 a.secrets.responder_confirmation_key transcript final.mac_f

  unfoldable pub judge_final : Answered → FinalMessage → Result (Unit {0})
  unfolding refuse_final accept_final
  judge_final a final =
      if final.status == status_accept then accept_final a final else refuse_final a final

  -- Message 1 decoded by the responder, and the check of who sent it.
  unfoldable pub read_hello : Bytes → Result HelloMessage
  read_hello m1 = do
    hello ← decode_hello unicode m1
    check_not_self hello.device_id hello.identity_public_key owner.own_device_id
        owner.identity_public_key
    ok hello

  -- The responder's message 2.
  unfoldable pub make_reply : Ephemeral → Bytes → HelloMessage → Result Replied
  unfolding generate_nonce
  make_reply eph m1 hello = do
    nonce ← generate_nonce eph
    let own = introduce owner eph.public_key nonce
    body ← encode_reply_body unicode handshake_version own
    t2 ← transcript_t2 sha256 m1 body
    to_sign ← signed_responder t2
    let sig_r = sign owner.identity_private_key to_sign
    shared ← derive_shared_secret eph.private_key hello.ephemeral
    secrets ←
        derive_handshake_secrets kdf shared hello
          (record {
            version = handshake_version;
            introduction = own;
            sig_r = sig_r;
            mac_r = replicate mac_size 0;
            body = body;
            raw = body;
          })
          t2
    t2s ← transcript_t2s sha256 t2 sig_r
    mac_r ← confirmation_mac hmac_sha256 secrets.responder_confirmation_key t2s
    reply_bytes ← encode_reply unicode handshake_version own sig_r mac_r
    ok (record { secrets = secrets; t2s = t2s; mac_r = mac_r; reply_bytes = reply_bytes })

  -- `_verify_message_3` up to the pin: the message and the transcript t3s.
  unfoldable pub check_confirm :
      HelloMessage → Replied → Bytes → Option Bytes → Result (ConfirmMessage × Bytes)
  unfolding check_pin
  check_confirm hello r m3 trusted = do
    confirm ← decode_confirm m3
    t3 ← transcript_t3 sha256 r.t2s r.mac_r
    t3s ← transcript_t3s sha256 t3 confirm.sig_i
    signed ← signed_initiator r.t2s
    guard (verify hello.identity_public_key signed confirm.sig_i) invalid_handshake_signature_error
    check_pin trusted hello.identity_public_key
    verify_confirmation_mac hmac_sha256 r.secrets.initiator_confirmation_key t3s confirm.mac_i
    ok (confirm, t3s)

  -- The responder's two answers as message 4.
  unfoldable pub make_accept : Replied → ConfirmMessage → Bytes → Result Bytes
  make_accept r confirm t3s = do
    t_final ← transcript_final sha256 t3s confirm.mac_i
    transcript ← transcript_m4_accept sha256 t_final
    mac_f ← confirmation_mac hmac_sha256 r.secrets.responder_confirmation_key transcript
    encode_final handshake_version status_accept mac_f

  unfoldable pub make_reject : Replied → Bytes → Result Bytes
  make_reject r m3 = do
    transcript ← transcript_m4_reject sha256 r.t2s m3
    mac_f ← confirmation_mac hmac_sha256 r.secrets.responder_confirmation_key transcript
    encode_final handshake_version status_reject mac_f

-- ===== src/Handshake/Responder/Verified.antt =====
-- What the responder of handshake_v3.py has verified before it pins a key.
use secure_sync.Prelude.{◌≡◌, ◌⊎◌, true, Option, none, some, arith}
use secure_sync.Prelude.Bytes.{Bytes}
use secure_sync.Errors.{ok, guard, guard_passed, >>=_cases, invalid_handshake_signature_error}
use secure_sync.Dict
use secure_sync.Dict.{Dict}
use secure_sync.Messages.{HelloMessage, ConfirmMessage}
use secure_sync.Messages.Decode.{decode_confirm}
use secure_sync.Messages.Transcript.{transcript_t3, transcript_t3s, signed_initiator}
use secure_sync.HandshakeKeys.{verify_confirmation_mac}
use secure_sync.Handshake.{
  Primitives, HandshakeV3, Ephemeral, Replied, check_pin, read_hello, make_reply, check_confirm,
}
use secure_sync.Handshake.Trust.{check_pin_cases}

-- What a peer has proved when message 3 is accepted: it signed the transcript up to the responder's
-- signature, its key is the pinned one where there is a pin, and its MAC over the transcript with its own
-- signature is that of the secrets.
pub record IsSignedConfirm (p : Primitives) (hello : HelloMessage) (replied : Replied) (m3 : Bytes)
    (pinned : Option Bytes) : Type 0 where
  pub received : ConfirmMessage
  pub t3 : Bytes
  pub t3s : Bytes
  pub signed : Bytes
  pub confirm_eq : decode_confirm m3 ≡ ok received
  pub t3_eq : transcript_t3 p.sha256 replied.t2s replied.mac_r ≡ ok t3
  pub t3s_eq : transcript_t3s p.sha256 t3 received.sig_i ≡ ok t3s
  pub signed_eq : signed_initiator replied.t2s ≡ ok signed
  pub signature : p.verify hello.identity_public_key signed received.sig_i ≡ true
  pub pin : (pinned ≡ none) ⊎ (pinned ≡ some hello.identity_public_key)
  pub mac :
      verify_confirmation_mac p.hmac_sha256 replied.secrets.initiator_confirmation_key t3s
        received.mac_i
      ≡ ok tt

-- A run of the responder whose message 3 was verified against the pins it started with.
pub record IsAuthenticated (p : Primitives) (owner : HandshakeV3) (eph : Ephemeral)
    (trusted : Dict Bytes) (hello : HelloMessage) : Type 0 where
  pub m1 : Bytes
  pub m3 : Bytes
  pub replied : Replied
  pub hello_eq : read_hello p owner m1 ≡ ok hello
  pub replied_eq : make_reply p owner eph m1 hello ≡ ok replied
  pub confirm_signed : IsSignedConfirm p hello replied m3 (Dict.lookup hello.device_id trusted)

pub check_confirm_parts :
    (p : Primitives) (owner : HandshakeV3) (hello : HelloMessage) (replied : Replied) (m3 : Bytes)
    (pinned : Option Bytes) (checked : ConfirmMessage × Bytes)
    → check_confirm p owner hello replied m3 pinned ≡ ok checked
    → IsSignedConfirm p hello replied m3 pinned
unfolding check_confirm
check_confirm_parts p owner hello replied m3 pinned checked h =
    >>=_cases (decode_confirm m3) _ h λ confirm confirm_eq h1.
      >>=_cases (transcript_t3 p.sha256 replied.t2s replied.mac_r) _ h1 λ t3 t3_eq h2.
        >>=_cases (transcript_t3s p.sha256 t3 confirm.sig_i) _ h2 λ t3s t3s_eq h3.
          >>=_cases (signed_initiator replied.t2s) _ h3 λ signed signed_eq h4.
            let verified = p.verify hello.identity_public_key signed confirm.sig_i in
            >>=_cases (guard verified invalid_handshake_signature_error) _ h4 λ u signature h5.
              >>=_cases (check_pin pinned hello.identity_public_key) _ h5 λ v pin h6. record {
                received = confirm;
                t3 = t3;
                t3s = t3s;
                signed = signed;
                confirm_eq = confirm_eq;
                t3_eq = t3_eq;
                t3s_eq = t3s_eq;
                signed_eq = signed_eq;
                signature = guard_passed _ _ signature;
                pin = check_pin_cases pinned hello.identity_public_key pin;
                mac = ground (arith, h6);
              }

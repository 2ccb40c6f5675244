-- ===== src/Handshake/Trust.antt =====
-- Trust on first use in handshake_v3.py, and the size of the session identifiers that handshake_keys.py
-- derives.
use secure_sync.Prelude.{
  ◌≡◌, refl, ap, ◌∙◌, ◌⊎◌, inl, inr, Option, none, some, [], ◌++◌, length, arith, Bool-cases,
}
use secure_sync.Prelude.Bytes.{Bytes, to_be, beq, beq_iff}
use secure_sync.Errors.{ok, guard, peer_identity_mismatch_error}
use secure_sync.Dict
use secure_sync.Dict.{Dict, lookup-insert}
use secure_sync.KeySchedule.{Kdf, IsKdf, length_prefixed}
use secure_sync.Messages.{HelloMessage, ReplyMessage}
use secure_sync.HandshakeKeys.{
  HandshakeSecrets, handshake_session_id_info, derive_handshake_secrets, derive_secrets,
}
use secure_sync.Handshake.{check_pin}

pub check_pin_cases :
    (pinned : Option Bytes) (key : Bytes)
    → check_pin pinned key ≡ ok tt
    → (pinned ≡ none) ⊎ (pinned ≡ some key)
unfolding check_pin
check_pin_cases none key h = inl refl
check_pin_cases (some k) key h = elim (Bool-cases (beq k key)) [
  | inl e ↦ inr (ap some ((beq_iff k key).0 e))
  | inr e ↦ cc (h, ap (λ b. guard b peer_identity_mismatch_error) e)
]

-- A key that is pinned for a device is not changed by inserting a key that agrees with the pins.
pub lookup-pin :
    (d device_id key k : Bytes) (trusted : Dict Bytes)
    → (Dict.lookup device_id trusted ≡ none) ⊎ (Dict.lookup device_id trusted ≡ some key)
    → Dict.lookup d trusted ≡ some k
    → Dict.lookup d (Dict.insert device_id key trusted) ≡ some k
lookup-pin d device_id key k trusted pin h =
    lookup-insert device_id d key trusted ∙ ground (arith, pin, h, beq_iff device_id d)

pub session_id_size-derive_handshake_secrets :
    (kdf : Kdf)
    → IsKdf kdf
    → (shared : Bytes) (hello : HelloMessage) (reply : ReplyMessage) (t2 : Bytes)
      (secrets : HandshakeSecrets)
    → derive_handshake_secrets kdf shared hello reply t2 ≡ ok secrets
    → length secrets.session_id ≡ 8
unfolding derive_handshake_secrets derive_secrets length_prefixed
session_id_size-derive_handshake_secrets kdf law shared hello reply t2 secrets h =
    let label : Bytes = to_be 2 (length handshake_session_id_info) ++ handshake_session_id_info in
    ground (arith, h, law.length-derive secrets.master [] label 8)

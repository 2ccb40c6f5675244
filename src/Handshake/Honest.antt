-- ===== src/Handshake/Honest.antt =====
-- Two devices that run handshake_v3.py as written, with primitives that work: the values that each
-- flight has then.
use secure_sync.Prelude.{ℕ, ◌≤◌, ◌≡◌, refl, true, false, [], ◌∷◌, ◌++◌, arith, length}
use secure_sync.Prelude.Bytes.{Bytes, to_be, beq, beq_refl}
use secure_sync.Errors.{ok}
use secure_sync.Frame.{role_initiator, role_responder}
use secure_sync.Curve.{check_public_key, check_shared_secret}
use secure_sync.KeySchedule.{
  Kdf, IsKdf, SessionKeys, length_prefixed, common_info, derive_directional_keys, i2r_info,
  r2i_info,
}
use secure_sync.Messages.{check_not_self}
use secure_sync.Messages.RoundTrip.{IsValid}
use secure_sync.Messages.Transcript.{lp, lp_all, hash_parts, signed_responder, signed_initiator}
use secure_sync.HandshakeKeys.{
  HandshakeSecrets, require_size, keys_for_role, derive_secrets, confirmation_mac,
  verify_confirmation_mac, handshake_master_info, responder_confirm_info, initiator_confirm_info,
  handshake_session_id_info,
}
use secure_sync.Handshake.{Primitives, HandshakeV3, Ephemeral, introduce}

-- The documented sizes of SHA-256, HMAC and HKDF output, and Ed25519 signatures that verify.
pub record Works (p : Primitives) : Type 0 where
  pub kdf_law : IsKdf p.kdf
  pub length-sha256 : (bytes : Bytes) → length (p.sha256 bytes) ≡ 32
  pub length-hmac : (key message : Bytes) → length (p.hmac_sha256 key message) ≡ 32
  pub length-sign : (key message : Bytes) → length (p.sign key message) ≡ 64

-- A device with a usable configuration and ephemeral key.
pub record IsReady (p : Primitives) (owner : HandshakeV3) (eph : Ephemeral) : Type 0 where
  pub valid : IsValid p.unicode (introduce owner eph.public_key eph.nonce)
  pub public_ok : check_public_key eph.public_key ≡ ok tt
  pub signs :
      (message : Bytes)
      → p.verify owner.identity_public_key message (p.sign owner.identity_private_key message)
        ≡ true

pub length_prefixed_short :
    (value : Bytes)
    → length value ≤ 65535
    → length_prefixed value ≡ ok (to_be 2 (length value) ++ value)
unfolding length_prefixed
length_prefixed_short value h = ground (arith, h)

lp_short : (value : Bytes) → length value ≤ 65535 → lp value ≡ ok (to_be 2 (length value) ++ value)
unfolding lp length_prefixed
lp_short value h = ground (arith, h)

pub signed_labels :
    (t : Bytes)
    → ((r : Bytes) × (signed_responder t ≡ ok r)) × ((i : Bytes) × (signed_initiator t ≡ ok i))
unfolding signed_responder signed_initiator lp length_prefixed
signed_labels t = ((_, refl), (_, refl))

module _ (sha256 : Bytes → Bytes) (size : (bytes : Bytes) → length (sha256 bytes) ≡ 32) where
  -- A transcript over one short part.
  pub hash_part :
      (prefix part : Bytes)
      → length part ≤ 65535
      → (t : Bytes) × (hash_parts sha256 prefix (part ∷ []) ≡ ok t) × (length t ≡ 32)
  unfolding hash_parts lp_all
  hash_part prefix part h = (
    sha256 (prefix ++ ((to_be 2 (length part) ++ part) ++ [])),
    rw (lp_short part h) refl,
    size _,
  )

  pub hash_two_parts :
      (prefix part other : Bytes)
      → length part ≤ 65535
      → length other ≤ 65535
      → (t : Bytes) × (hash_parts sha256 prefix (part ∷ other ∷ []) ≡ ok t) × (length t ≡ 32)
  unfolding hash_parts lp_all
  hash_two_parts prefix part other h k = (
    sha256
        (prefix ++ ((to_be 2 (length part) ++ part) ++ ((to_be 2 (length other) ++ other) ++ []))),
    rw (lp_short part h, lp_short other k) refl,
    size _,
  )

-- Secrets with keys of the sizes that the MACs and the sessions need.
pub record IsSized (secrets : HandshakeSecrets) : Type 0 where
  pub responder_size : length secrets.responder_confirmation_key ≡ 32
  pub initiator_size : length secrets.initiator_confirmation_key ≡ 32
  pub id_size : length secrets.session_id ≡ 8

shared_secret_size : (shared : Bytes) → check_shared_secret shared ≡ ok tt → length shared ≡ 32
unfolding check_shared_secret
shared_secret_size shared h = ground (arith, h)

module _ (kdf : Kdf) (law : IsKdf kdf) where
  open kdf use {derive}

  directional_keys :
      (master id_i id_r session_id e_i e_r : Bytes)
      → length id_i ≤ 65535
      → length id_r ≤ 65535
      → length session_id ≡ 8
      → length e_i ≡ 32
      → length e_r ≡ 32
      → (keys : Bytes × Bytes) × (derive_directional_keys kdf master id_i id_r session_id e_i e_r
          ≡ ok keys)
  unfolding derive_directional_keys common_info length_prefixed
  directional_keys master id_i id_r session_id e_i e_r hi hr hs ei er =
      let common : Bytes =
        (to_be 2 (length id_i) ++ id_i)
        ++ ((to_be 2 (length id_r) ++ id_r)
            ++ (session_id ++ ((to_be 2 (length e_i) ++ e_i) ++ (to_be 2 (length e_r) ++ e_r)))) in
      (
        (
          derive master [] ((to_be 2 (length i2r_info) ++ i2r_info) ++ common) 32,
          derive master [] ((to_be 2 (length r2i_info) ++ r2i_info) ++ common) 32,
        ),
        ground (arith, hi, hr, hs, ei, er),
      )

  pub derive_secrets_ready :
      (shared id_i e_i n_i id_r e_r n_r t2 : Bytes)
      → check_shared_secret shared ≡ ok tt
      → length id_i ≤ 65535
      → length id_r ≤ 65535
      → length e_i ≡ 32
      → length e_r ≡ 32
      → length n_i ≡ 32
      → length n_r ≡ 32
      → length t2 ≡ 32
      → (secrets : HandshakeSecrets) × (derive_secrets kdf shared id_i e_i n_i id_r e_r n_r t2
          ≡ ok secrets)
        × IsSized secrets
  unfolding derive_secrets require_size length_prefixed
  derive_secrets_ready shared id_i e_i n_i id_r e_r n_r t2 shared_ok hi hr ei er ni nr ht =
      let master =
        derive shared ((to_be 2 (length n_i) ++ n_i) ++ (to_be 2 (length n_r) ++ n_r))
          ((to_be 2 (length handshake_master_info) ++ handshake_master_info) ++ t2) 32 in
      let label : Bytes → Bytes = λ info. to_be 2 (length info) ++ info in
      let session_id = derive master [] (label handshake_session_id_info) 8 in
      let id_size = law.length-derive master [] (label handshake_session_id_info) 8 in
      let (keys, keys_eq) =
        directional_keys master id_i id_r session_id e_i e_r hi hr id_size ei er in
      (
        record {
          master = master;
          responder_confirmation_key = derive master [] (label responder_confirm_info) 32;
          initiator_confirmation_key = derive master [] (label initiator_confirm_info) 32;
          session_id = session_id;
          initiator_to_responder_key = keys.0;
          responder_to_initiator_key = keys.1;
        },
        ground (arith, shared_ok, shared_secret_size shared shared_ok, ni, nr, ht, keys_eq),
        record {
          responder_size = law.length-derive master [] (label responder_confirm_info) 32;
          initiator_size = law.length-derive master [] (label initiator_confirm_info) 32;
          id_size = id_size;
        },
      )

-- A MAC over a transcript is computed and accepted by the other side.
pub mac_agrees :
    (hmac : (key message : Bytes) → Bytes)
    → ((key message : Bytes) → length (hmac key message) ≡ 32)
    → (key transcript : Bytes) → length key ≡ 32
    → length transcript ≡ 32
    → (confirmation_mac hmac key transcript ≡ ok (hmac key transcript))
      × (verify_confirmation_mac hmac key transcript (hmac key transcript) ≡ ok tt)
unfolding confirmation_mac verify_confirmation_mac require_size
mac_agrees hmac size key transcript hk ht = (
  ground (arith, hk, ht),
  ground (arith, hk, ht, size key transcript, beq_refl (hmac key transcript)),
)

pub not_self :
    (peer_id peer_key own_id own_key : Bytes)
    → beq peer_id own_id ≡ false
    → beq peer_key own_key ≡ false
    → check_not_self peer_id peer_key own_id own_key ≡ ok tt
unfolding check_not_self
not_self peer_id peer_key own_id own_key h k = rw (h, k) refl

-- The keys of the two roles under the same secrets: what one sends with, the other receives with.
pub record Mirrored (secrets : HandshakeSecrets) : Type 0 where
  pub initiator_keys : SessionKeys
  pub responder_keys : SessionKeys
  pub initiator_eq : keys_for_role secrets role_initiator ≡ ok initiator_keys
  pub responder_eq : keys_for_role secrets role_responder ≡ ok responder_keys
  pub same_session : initiator_keys.session_id ≡ responder_keys.session_id
  pub forth : initiator_keys.send_key ≡ responder_keys.receive_key
  pub back : responder_keys.send_key ≡ initiator_keys.receive_key

pub keys_for_role-Mirrored :
    (secrets : HandshakeSecrets) → length secrets.session_id ≡ 8 → Mirrored secrets
unfolding keys_for_role require_size
keys_for_role-Mirrored secrets h =
    let keys : (role : ℕ) (send receive : Bytes) → SessionKeys = λ role send receive. record {
      session_id = secrets.session_id;
      send_key = send;
      receive_key = receive;
      role = role;
    } in
    record {
      initiator_keys =
          keys role_initiator secrets.initiator_to_responder_key secrets.responder_to_initiator_key;
      responder_keys =
          keys role_responder secrets.responder_to_initiator_key secrets.initiator_to_responder_key;
      initiator_eq = ground (arith, h);
      responder_eq = ground (arith, h);
      same_session = refl;
      forth = refl;
      back = refl;
    }

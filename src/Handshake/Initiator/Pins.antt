-- ===== src/Handshake/Initiator/Pins.antt =====
-- The trust store, the state and the result after a run of the initiator in handshake_v3.py.
use secure_sync.Prelude.{◌≡◌, refl, sym, ap, ◌∙◌, ◌⊎◌, inl, inr, some, length, arith}
use secure_sync.Prelude.Bytes.{Bytes}
use secure_sync.Errors.{Error, Result, ok, err, Result-cases}
use secure_sync.Dict
use secure_sync.Dict.{Dict, lookup-insert}
use secure_sync.Frame.{role_initiator}
use secure_sync.KeySchedule.{IsKdf, SessionKeys}
use secure_sync.HandshakeKeys.{keys_for_role, require_size}
use secure_sync.Handshake.{Primitives, HandshakeV3, Ephemeral, HandshakeResult, Answered, result_of}
use secure_sync.Handshake.Trust.{lookup-pin, session_id_size-derive_handshake_secrets}
use secure_sync.Handshake.World.{World}
use secure_sync.Handshake.Initiator.{
  HandshakeState, confirmed, failed, settle_state, authenticate_peer, conclude, initiate,
  run_initiator,
}
use secure_sync.Handshake.Initiator.Verified.{
  IsAuthenticated, authenticate_peer-Keeps, authenticate_peer_parts,
}

module _ (p : Primitives) (owner : HandshakeV3) where
  -- What `conclude` does to the world, when it returns and when it does not.
  conclude-trusted :
      (answered : Answered) (w : World HandshakeState)
      → (conclude p owner answered w).1.trusted
        ≡ Dict.insert answered.reply.device_id answered.reply.identity_public_key w.trusted
  unfolding conclude keys_for_role require_size
  conclude-trusted answered w = ground arith

  -- With a session identifier of 8 bytes, `conclude` returns.
  conclude-ok :
      (answered : Answered) (w : World HandshakeState)
      → length answered.secrets.session_id ≡ 8
      → (keys : SessionKeys) × (keys_for_role answered.secrets role_initiator ≡ ok keys)
        × ((conclude p owner answered w).0
            ≡ ok (
                result_of answered.reply.device_id answered.reply.transfer_port
                  answered.reply.manifest_port keys))
  unfolding conclude keys_for_role require_size
  conclude-ok answered w h = (
    record {
      session_id = answered.secrets.session_id;
      send_key = answered.secrets.initiator_to_responder_key;
      receive_key = answered.secrets.responder_to_initiator_key;
      role = role_initiator;
    },
    ground (arith, h),
    ground (arith, h),
  )

  -- A run up to the verdict: it raised, with the pins it started with, or it verified the peer.
  authenticate_peer_cases :
      (eph : Ephemeral) (w : World HandshakeState)
      → ((e : Error) × (w1 : World HandshakeState) × (authenticate_peer p owner eph w ≡ (err e, w1))
          × (w1.trusted ≡ w.trusted))
        ⊎ ((answered : Answered) × (w1 : World HandshakeState) × (authenticate_peer p owner eph w
              ≡ (ok answered, w1))
            × (w1.trusted ≡ w.trusted)
            × IsAuthenticated p owner eph w.trusted answered)
  authenticate_peer_cases eph w =
      let r = authenticate_peer p owner eph w in
      let kept : r.1.trusted ≡ w.trusted =
        ap (λ b. b.trusted) ((authenticate_peer-Keeps p owner eph).keeps w) in
      elim (Result-cases r.0) [
        | inl (e, h) ↦ inl (e, r.1, ap (λ x. (x, r.1)) h, kept)
        | inr (answered, h) ↦ inr (
          answered,
          r.1,
          ap (λ x. (x, r.1)) h,
          kept,
          authenticate_peer_parts p owner eph w r.1 answered (ap (λ x. (x, r.1)) h),
        )
      ]

  conclude_after_ok :
      (eph : Ephemeral) (w w1 : World HandshakeState) (answered : Answered)
      → authenticate_peer p owner eph w ≡ (ok answered, w1)
      → run_initiator p owner eph w ≡ settle_state (conclude p owner answered w1)
  unfolding run_initiator initiate
  conclude_after_ok eph w w1 answered h = rw h refl

  conclude_after_err :
      (eph : Ephemeral) (w w1 : World HandshakeState) (e : Error)
      → authenticate_peer p owner eph w ≡ (err e, w1)
      → run_initiator p owner eph w ≡ (err e, record w1 { state = failed })
  unfolding run_initiator initiate
  conclude_after_err eph w w1 e h = rw h refl

  settle_state-trusted :
      {A : Type 0} (r : Result A × World HandshakeState) → (settle_state r).1.trusted ≡ r.1.trusted
  settle_state-trusted (ok a, w) = refl
  settle_state-trusted (err e, w) = refl

  -- Whatever happens in a run of the initiator, a device that had a pinned key keeps that key.
  pub run_initiator-lookup :
      (eph : Ephemeral) (w : World HandshakeState) (d k : Bytes)
      → Dict.lookup d w.trusted ≡ some k
      → Dict.lookup d (run_initiator p owner eph w).1.trusted ≡ some k
  run_initiator-lookup eph w d k h = elim (authenticate_peer_cases eph w) [
    | inl (e, w1, run, kept) ↦
        ap (λ x. Dict.lookup d x.1.trusted) (conclude_after_err eph w w1 e run)
        ∙ ap (Dict.lookup d) kept
        ∙ h
    | inr (answered, w1, run, kept, verified) ↦
        let end_trusted : (run_initiator p owner eph w).1.trusted
            ≡ Dict.insert answered.reply.device_id answered.reply.identity_public_key w.trusted =
          ap (λ x. x.1.trusted) (conclude_after_ok eph w w1 answered run)
          ∙ settle_state-trusted (conclude p owner answered w1)
          ∙ conclude-trusted answered w1
          ∙ ap (Dict.insert answered.reply.device_id answered.reply.identity_public_key) kept in
        ap (Dict.lookup d) end_trusted
        ∙ lookup-pin d answered.reply.device_id answered.reply.identity_public_key k w.trusted
            verified.reply_signed.pin h
  ]

  -- What a run that returned has verified and left behind.
  pub record IsConfirmed (eph : Ephemeral) (w w' : World HandshakeState) (result : HandshakeResult)
      : Type 0 where
    pub answered : Answered
    pub keys : SessionKeys
    pub authenticated : IsAuthenticated p owner eph w.trusted answered
    pub keys_eq : keys_for_role answered.secrets role_initiator ≡ ok keys
    pub result_eq :
        result
        ≡ result_of answered.reply.device_id answered.reply.transfer_port
            answered.reply.manifest_port keys
    pub pinned :
        w'.trusted
        ≡ Dict.insert answered.reply.device_id answered.reply.identity_public_key w.trusted
    pub state_eq : w'.state ≡ confirmed

  run_initiator_cases :
      IsKdf p.kdf
      → (eph : Ephemeral) (w : World HandshakeState)
      → ((e : Error) × (w' : World HandshakeState) × (run_initiator p owner eph w ≡ (err e, w'))
          × (w'.trusted ≡ w.trusted)
          × (w'.state ≡ failed))
        ⊎ ((result : HandshakeResult) × (w' : World HandshakeState) × (run_initiator p owner eph w
              ≡ (ok result, w'))
            × IsConfirmed eph w w' result)
  run_initiator_cases law eph w = elim (authenticate_peer_cases eph w) [
    | inl (e, w1, run, kept) ↦
        inl (e, record w1 { state = failed }, conclude_after_err eph w w1 e run, kept, refl)
    | inr (answered, w1, run, kept, verified) ↦
        let s = verified.reply_signed in
        let (keys, keys_eq, returned) = conclude-ok answered w1 (
          session_id_size-derive_handshake_secrets p.kdf law s.shared s.hello answered.reply s.t2
            answered.secrets s.secrets_eq) in
        let result =
          result_of answered.reply.device_id answered.reply.transfer_port
            answered.reply.manifest_port keys in
        let w2 = (conclude p owner answered w1).1 in
        inr (
          result,
          record w2 { state = confirmed },
          conclude_after_ok eph w w1 answered run ∙ ap (λ r. settle_state (r, w2)) returned,
          record {
            answered = answered;
            keys = keys;
            authenticated = verified;
            keys_eq = keys_eq;
            result_eq = refl;
            pinned =
                conclude-trusted answered w1
                ∙ ap (Dict.insert answered.reply.device_id answered.reply.identity_public_key) kept;
            state_eq = refl;
          },
        )
  ]

  -- If the key derivation returns keys of the length asked for, a run of the initiator that raises leaves
  -- the trust store as it was, and the state FAILED.
  pub run_initiator-err :
      IsKdf p.kdf
      → (eph : Ephemeral) (w w' : World HandshakeState) (e : Error)
      → run_initiator p owner eph w ≡ (err e, w')
      → (w'.trusted ≡ w.trusted) × (w'.state ≡ failed)
  run_initiator-err law eph w w' e h = elim (run_initiator_cases law eph w) [
    | inl (e1, w1, run, kept, state_eq) ↦
        (ap (λ r. r.1.trusted) (sym h ∙ run) ∙ kept, ap (λ r. r.1.state) (sym h ∙ run) ∙ state_eq)
    | inr (result, w1, run, c) ↦ cc (h, run)
  ]

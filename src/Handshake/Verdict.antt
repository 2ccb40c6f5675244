-- ===== src/Handshake/Verdict.antt =====
-- Message 4 of handshake_v3.py: the responder's refusal as the initiator reads it, and what an accepted
-- verdict carries.
use secure_sync.Prelude.{◌≡◌, refl, arith, ◌==◌, ==_iff, Bool-cases, inl, inr}
use secure_sync.Prelude.Bytes.{Bytes, beq, beq_iff, beq_refl}
use secure_sync.Errors.{
  ok, err, guard, >>=_cases, handshake_rejected_error, handshake_rejection_unverified_error,
}
use secure_sync.Messages.{FinalMessage}
use secure_sync.Messages.Decode.{decode_final}
use secure_sync.Messages.Verdicts.{decode_final-encode_final}
use secure_sync.Messages.Transcript.{transcript_final, transcript_m4_accept, transcript_m4_reject}
use secure_sync.HandshakeKeys.{confirmation_mac, verify_confirmation_mac, require_size}
use secure_sync.Handshake.{
  Primitives, HandshakeV3, Answered, Replied, make_reject, refuse_final, accept_final, judge_final,
}

module _ (p : Primitives) (i r : HandshakeV3) where
  -- A refusal that the responder makes of the message 3 that the initiator sent, under the same secrets
  -- and transcript, is read by the initiator as an authentic rejection.
  pub judge_final-make_reject :
      (answered : Answered) (replied : Replied) (m4 : Bytes)
      → answered.t2s ≡ replied.t2s
      → answered.secrets ≡ replied.secrets
      → make_reject p r replied answered.confirm_bytes ≡ ok m4
      → (final : FinalMessage) × (decode_final m4 ≡ ok final)
        × (judge_final p i answered final ≡ err handshake_rejected_error)
  unfolding make_reject judge_final refuse_final
  judge_final-make_reject answered replied m4 same_t2s same_secrets made =
      let key = replied.secrets.responder_confirmation_key in
      >>=_cases (transcript_m4_reject p.sha256 replied.t2s answered.confirm_bytes) _ made
        λ t t_eq h1. >>=_cases (confirmation_mac p.hmac_sha256 key t) _ h1 λ mac mac_eq h2.
          let t_eq' : transcript_m4_reject p.sha256 answered.t2s answered.confirm_bytes ≡ ok t =
            rw same_t2s t_eq in
          let mac_eq' : confirmation_mac p.hmac_sha256 answered.secrets.responder_confirmation_key t
              ≡ ok mac =
            rw same_secrets mac_eq in
          (
            record { version = 3; status = 1; mac_f = mac; raw = m4 },
            decode_final-encode_final 3 1 mac m4 h2,
            rw (t_eq', mac_eq', beq_refl mac) refl,
          )

  -- What a verdict carries that the initiator accepts.
  pub record IsVerdict (answered : Answered) (final : FinalMessage) : Type 0 where
    pub t_final : Bytes
    pub transcript : Bytes
    pub status_eq : final.status ≡ 0
    pub t_final_eq : transcript_final p.sha256 answered.t3s answered.mac_i ≡ ok t_final
    pub transcript_eq : transcript_m4_accept p.sha256 t_final ≡ ok transcript
    pub mac_eq : final.mac_f ≡ p.hmac_sha256 answered.secrets.responder_confirmation_key transcript

  mac_verified :
      (key transcript received : Bytes)
      → verify_confirmation_mac p.hmac_sha256 key transcript received ≡ ok tt
      → received ≡ p.hmac_sha256 key transcript
  unfolding verify_confirmation_mac confirmation_mac require_size
  mac_verified key transcript received h =
      ground (arith, h, beq_iff (p.hmac_sha256 key transcript) received)

  refuse_final_never {ℓ} :
      {P : Type ℓ} (answered : Answered) (final : FinalMessage)
      → refuse_final p i answered final ≡ ok tt
      → P
  unfolding refuse_final
  refuse_final_never answered final h =
      >>=_cases (transcript_m4_reject p.sha256 answered.t2s answered.confirm_bytes) _ h λ t t_eq h1.
        >>=_cases (confirmation_mac p.hmac_sha256 answered.secrets.responder_confirmation_key t) _
          h1
          λ mac mac_eq h2.
            >>=_cases (guard (beq mac final.mac_f) handshake_rejection_unverified_error) _ h2
              λ u passed h3. cc h3

  -- The initiator accepts only a message 4 with the accepting status and the MAC, under the responder's
  -- key, of the whole transcript with the accepting label.
  pub judge_final-IsVerdict :
      (answered : Answered) (final : FinalMessage)
      → judge_final p i answered final ≡ ok tt
      → IsVerdict answered final
  unfolding judge_final accept_final
  judge_final-IsVerdict answered final h = elim (Bool-cases (final.status == 0)) [
    | inl e ↦
        let accepted : accept_final p i answered final ≡ ok tt = ground (arith, e, h) in
        >>=_cases (transcript_final p.sha256 answered.t3s answered.mac_i) _ accepted
          λ t_final t_final_eq h1.
            >>=_cases (transcript_m4_accept p.sha256 t_final) _ h1 λ transcript transcript_eq h2.
              record {
                t_final = t_final;
                transcript = transcript;
                status_eq = (==_iff _ _).0 e;
                t_final_eq = t_final_eq;
                transcript_eq = transcript_eq;
                mac_eq =
                    mac_verified answered.secrets.responder_confirmation_key transcript final.mac_f
                      h2;
              }
    | inr e ↦ refuse_final_never answered final (ground (arith, e, h))
  ]

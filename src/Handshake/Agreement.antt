-- ===== src/Handshake/Agreement.antt =====
-- The four messages of handshake_v3.py between two devices that run it as written.
use secure_sync.Prelude.{◌≡◌, refl, ◌∷◌, ◌++◌, arith, length}
use secure_sync.Prelude.Bytes.{Bytes}
use secure_sync.Errors.{ok}
use secure_sync.Messages.{
  HelloMessage, ReplyMessage, ConfirmMessage, FinalMessage, encode_hello, encode_reply_body,
  encode_confirm, encode_final, validate_version, validate_bytes,
}
use secure_sync.Messages.Decode.{decode_hello, decode_final}
use secure_sync.Messages.RoundTrip.{
  encode_introduction-IsValid, decode_hello-encode_hello, decode_reply-encode_reply,
}
use secure_sync.Messages.Verdicts.{decode_confirm-encode_confirm, decode_final-encode_final}
use secure_sync.Messages.Transcript.{
  signed_initiator, transcript_t3, transcript_t3s, transcript_final, transcript_m4_accept,
  m4_accept_label,
}
use secure_sync.HandshakeKeys.{derive_handshake_secrets}
use secure_sync.Handshake.{
  Answered, Replied, make_hello, read_hello, make_reply, read_reply, answer_reply, answer_verified,
  check_confirm, make_accept, judge_final, accept_final,
}
use secure_sync.Handshake.Honest.{
  signed_labels, hash_part, mac_agrees, not_self, Mirrored, keys_for_role-Mirrored,
}
use secure_sync.Handshake.Opening.{
  HonestPair, Opened, beq-false_sym, check_pin_agrees, m1, body, hello, intro_i, intro_r, sig_r,
  mac_r, replied, opened, hello_made, hello_read, reply_encoded, reply_made,
}

-- What the four messages give, each made and read by the code of its side.
pub record Completed (pair : HonestPair) : Type 0 where
  pub m1 : Bytes
  pub hello : HelloMessage
  pub replied : Replied
  pub reply : ReplyMessage
  pub answered : Answered
  pub checked : ConfirmMessage × Bytes
  pub m4 : Bytes
  pub final : FinalMessage
  pub hello_made : make_hello pair.p pair.i pair.eph_i ≡ ok m1
  pub hello_read : read_hello pair.p pair.r m1 ≡ ok hello
  pub reply_made : make_reply pair.p pair.r pair.eph_r m1 hello ≡ ok replied
  pub reply_read : read_reply pair.p pair.i replied.reply_bytes ≡ ok reply
  pub answer_made : answer_reply pair.p pair.i pair.eph_i m1 reply pair.pin_i ≡ ok answered
  pub confirm_checked :
      check_confirm pair.p pair.r hello replied answered.confirm_bytes pair.pin_r ≡ ok checked
  pub accept_made : make_accept pair.p pair.r replied checked.0 checked.1 ≡ ok m4
  pub final_read : decode_final m4 ≡ ok final
  pub final_judged : judge_final pair.p pair.i answered final ≡ ok tt
  pub secrets_agree : answered.secrets ≡ replied.secrets
  pub keys_agree : Mirrored answered.secrets
  pub peers_known :
      (reply.device_id ≡ pair.r.own_device_id) × (hello.device_id ≡ pair.i.own_device_id)

module _ (pair : HonestPair) (o : Opened pair) where
  open pair use {
    p, i, r, eph_i, eph_r, pin_i, pin_r, works, ready_i, ready_r, ids_differ, keys_differ, shared,
    shared_i,
  }

  abbrev reply : ReplyMessage
  reply = record {
    version = 3;
    introduction = intro_r pair;
    sig_r = sig_r pair o;
    mac_r = mac_r pair o;
    body = body pair;
    raw = body pair ++ (sig_r pair o ++ mac_r pair o);
  }

  reply_read : read_reply p i (replied pair o).reply_bytes ≡ ok reply
  unfolding read_reply encode_reply_body
  reply_read =
      rw
        (
          decode_reply-encode_reply p.unicode 3 (intro_r pair) (sig_r pair o) (mac_r pair o)
              (body pair) _ (encode_introduction-IsValid p.unicode 2 (intro_r pair) ready_r.valid)
              (reply_encoded pair o) ready_r.public_ok,
          not_self r.own_device_id r.identity_public_key i.own_device_id i.identity_public_key
              (beq-false_sym i.own_device_id r.own_device_id ids_differ)
              (beq-false_sym i.identity_public_key r.identity_public_key keys_differ),
        )
        refl

  -- The values of messages 3 and 4.
  record Closed : Type 0 where
    t3 : Bytes
    signed : Bytes
    t3s : Bytes
    t_final : Bytes
    t_accept : Bytes
    t3_eq : transcript_t3 p.sha256 o.t2s (mac_r pair o) ≡ ok t3
    signed_eq : signed_initiator o.t2s ≡ ok signed
    t3s_eq : transcript_t3s p.sha256 t3 (p.sign i.identity_private_key signed) ≡ ok t3s
    t3s_size : length t3s ≡ 32
    t_final_eq :
        transcript_final p.sha256 t3s (p.hmac_sha256 o.secrets.initiator_confirmation_key t3s)
        ≡ ok t_final
    t_accept_eq : transcript_m4_accept p.sha256 t_final ≡ ok t_accept
    t_accept_size : length t_accept ≡ 32

  closed : Closed
  unfolding transcript_t3 transcript_t3s transcript_final transcript_m4_accept
  closed =
      let hash = hash_part p.sha256 works.length-sha256 in
      let (t3, t3_eq, t3_size) =
        hash o.t2s (mac_r pair o)
          (omega (arith, works.length-hmac o.secrets.responder_confirmation_key o.t2s)) in
      let (signed, signed_eq) = (signed_labels o.t2s).1 in
      let (t3s, t3s_eq, t3s_size) =
        hash t3 (p.sign i.identity_private_key signed)
          (omega (arith, works.length-sign i.identity_private_key signed)) in
      let (t_final, t_final_eq, t_final_size) =
        hash t3s (p.hmac_sha256 o.secrets.initiator_confirmation_key t3s)
          (omega (arith, works.length-hmac o.secrets.initiator_confirmation_key t3s)) in
      let (t_accept, t_accept_eq, t_accept_size) = hash t_final m4_accept_label (omega arith) in
      record {
        t3 = t3;
        signed = signed;
        t3s = t3s;
        t_final = t_final;
        t_accept = t_accept;
        t3_eq = t3_eq;
        signed_eq = signed_eq;
        t3s_eq = t3s_eq;
        t3s_size = t3s_size;
        t_final_eq = t_final_eq;
        t_accept_eq = t_accept_eq;
        t_accept_size = t_accept_size;
      }

  module _ (c : Closed) where
    abbrev sig_i : Bytes
    sig_i = p.sign i.identity_private_key c.signed

    abbrev mac_i : Bytes
    mac_i = p.hmac_sha256 o.secrets.initiator_confirmation_key c.t3s

    abbrev mac_f : Bytes
    mac_f = p.hmac_sha256 o.secrets.responder_confirmation_key c.t_accept

    abbrev confirm_bytes : Bytes
    confirm_bytes = 3 ∷ 3 ∷ (sig_i ++ mac_i)

    abbrev answered : Answered
    answered = record {
      reply = reply;
      secrets = o.secrets;
      t2s = o.t2s;
      t3s = c.t3s;
      mac_i = mac_i;
      confirm_bytes = confirm_bytes;
    }

    confirm_encoded : encode_confirm 3 sig_i mac_i ≡ ok confirm_bytes
    unfolding encode_confirm validate_version validate_bytes
    confirm_encoded = ground (
      arith,
      works.length-sign i.identity_private_key c.signed,
      works.length-hmac o.secrets.initiator_confirmation_key c.t3s,
    )

    hello_decoded : decode_hello p.unicode (m1 pair) ≡ ok (hello pair)
    unfolding encode_hello
    hello_decoded =
        decode_hello-encode_hello p.unicode 3 (intro_i pair) (m1 pair)
          (encode_introduction-IsValid p.unicode 1 (intro_i pair) ready_i.valid) ready_i.public_ok

    answer_made : answer_reply p i eph_i (m1 pair) reply pin_i ≡ ok answered
    unfolding answer_reply answer_verified derive_handshake_secrets
    answer_made =
        rw
          (
            hello_decoded,
            o.t2_eq,
            o.signed_eq,
            ready_r.signs o.signed,
            check_pin_agrees pin_i r.identity_public_key pair.pin_of_r,
            shared_i,
            o.secrets_eq,
            o.t2s_eq,
            (mac_agrees p.hmac_sha256 works.length-hmac o.secrets.responder_confirmation_key o.t2s
                o.sized.responder_size o.t2s_size).1,
            c.t3_eq,
            c.signed_eq,
            c.t3s_eq,
            (mac_agrees p.hmac_sha256 works.length-hmac o.secrets.initiator_confirmation_key c.t3s
                o.sized.initiator_size c.t3s_size).0,
            confirm_encoded,
          )
          refl

    abbrev confirm_message : ConfirmMessage
    confirm_message = record { version = 3; sig_i = sig_i; mac_i = mac_i; raw = confirm_bytes }

    confirm_checked :
        check_confirm p r (hello pair) (replied pair o) confirm_bytes pin_r
        ≡ ok (confirm_message, c.t3s)
    unfolding check_confirm
    confirm_checked =
        rw
          (
            decode_confirm-encode_confirm 3 sig_i mac_i confirm_bytes confirm_encoded,
            c.t3_eq,
            c.t3s_eq,
            c.signed_eq,
            ready_i.signs c.signed,
            check_pin_agrees pin_r i.identity_public_key pair.pin_of_i,
            (mac_agrees p.hmac_sha256 works.length-hmac o.secrets.initiator_confirmation_key c.t3s
                o.sized.initiator_size c.t3s_size).1,
          )
          refl

    final_encoded : encode_final 3 0 mac_f ≡ ok (3 ∷ 4 ∷ 0 ∷ mac_f)
    unfolding encode_final validate_version validate_bytes
    final_encoded =
        ground (arith, works.length-hmac o.secrets.responder_confirmation_key c.t_accept)

    accept_made : make_accept p r (replied pair o) confirm_message c.t3s ≡ ok (3 ∷ 4 ∷ 0 ∷ mac_f)
    unfolding make_accept
    accept_made =
        rw
          (
            c.t_final_eq,
            c.t_accept_eq,
            (mac_agrees p.hmac_sha256 works.length-hmac o.secrets.responder_confirmation_key
                c.t_accept o.sized.responder_size c.t_accept_size).0,
            final_encoded,
          )
          refl

    abbrev final : FinalMessage
    final = record { version = 3; status = 0; mac_f = mac_f; raw = 3 ∷ 4 ∷ 0 ∷ mac_f }

    final_judged : judge_final p i answered final ≡ ok tt
    unfolding judge_final accept_final
    final_judged =
        rw
          (
            c.t_final_eq,
            c.t_accept_eq,
            (mac_agrees p.hmac_sha256 works.length-hmac o.secrets.responder_confirmation_key
                c.t_accept o.sized.responder_size c.t_accept_size).1,
          )
          refl

-- Between two devices that run the code with working primitives, usable configurations and no contrary
-- pin, every message is made and accepted, both sides hold the same secrets and know each other's identifier,
-- and each sends with the key that the other receives with, in the same session.
pub handshake_completes : (pair : HonestPair) → Completed pair
handshake_completes pair =
    let o = opened pair in
    let c = closed pair o in
    record {
      m1 = m1 pair;
      hello = hello pair;
      replied = replied pair o;
      reply = reply pair o;
      answered = answered pair o c;
      checked = (confirm_message pair o c, c.t3s);
      m4 = 3 ∷ 4 ∷ 0 ∷ mac_f pair o c;
      final = final pair o c;
      hello_made = hello_made pair;
      hello_read = hello_read pair;
      reply_made = reply_made pair o;
      reply_read = reply_read pair o;
      answer_made = answer_made pair o c;
      confirm_checked = confirm_checked pair o c;
      accept_made = accept_made pair o c;
      final_read = decode_final-encode_final 3 0 (mac_f pair o c) _ (final_encoded pair o c);
      final_judged = final_judged pair o c;
      secrets_agree = refl;
      keys_agree = keys_for_role-Mirrored o.secrets o.sized.id_size;
      peers_known = (refl, refl);
    }

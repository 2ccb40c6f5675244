-- ===== src/Handshake/Opening.antt =====
-- The first two messages of handshake_v3.py between two devices that run it as written.
use secure_sync.Prelude.{
  ◌≤◌, ◌≡◌, refl, sym, ◌⊎◌, false, Option, none, some, [], ◌∷◌, ◌++◌, arith, length,
}
use secure_sync.Prelude.Bytes.{Bytes, beq, beq_iff, beq_refl}
use secure_sync.Errors.{ok}
use secure_sync.Curve.{check_shared_secret}
use secure_sync.Messages.{
  Introduction, HelloMessage, encode_hello, encode_reply_body, encode_reply, validate_bytes,
}
use secure_sync.Messages.RoundTrip.{
  encode_introduction-IsValid, layout, length-layout, decode_hello-encode_hello,
}
use secure_sync.Messages.Transcript.{t1, signed_responder, transcript_t2, transcript_t2s}
use secure_sync.HandshakeKeys.{HandshakeSecrets, derive_handshake_secrets, derive_secrets}
use secure_sync.Handshake.{
  Primitives, HandshakeV3, Ephemeral, Replied, introduce, generate_nonce, check_pin, make_hello,
  read_hello, make_reply,
}
use secure_sync.Handshake.Honest.{
  Works, IsReady, IsSized, signed_labels, hash_part, hash_two_parts, derive_secrets_ready,
  mac_agrees, not_self,
}

-- Two devices with usable configurations that are not the same device, ephemeral keys with an acceptable
-- shared secret, and trust stores that do not speak against the other's key.
pub record HonestPair : Type 0 where
  pub p : Primitives
  pub i : HandshakeV3
  pub r : HandshakeV3
  pub eph_i : Ephemeral
  pub eph_r : Ephemeral
  pub pin_i : Option Bytes
  pub pin_r : Option Bytes
  pub works : Works p
  pub ready_i : IsReady p i eph_i
  pub ready_r : IsReady p r eph_r
  pub ids_differ : beq i.own_device_id r.own_device_id ≡ false
  pub keys_differ : beq i.identity_public_key r.identity_public_key ≡ false
  pub shared : Bytes
  pub shared_i : p.derive_shared_secret eph_i.private_key eph_r.public_key ≡ ok shared
  pub shared_r : p.derive_shared_secret eph_r.private_key eph_i.public_key ≡ ok shared
  pub shared_ok : check_shared_secret shared ≡ ok tt
  pub pin_of_r : (pin_i ≡ none) ⊎ (pin_i ≡ some r.identity_public_key)
  pub pin_of_i : (pin_r ≡ none) ⊎ (pin_r ≡ some i.identity_public_key)

pub beq-false_sym : (xs ys : Bytes) → beq xs ys ≡ false → beq ys xs ≡ false
beq-false_sym xs ys h = ground (arith, h, beq_iff xs ys, beq_iff ys xs)

pub check_pin_agrees :
    (pinned : Option Bytes) (key : Bytes)
    → (pinned ≡ none) ⊎ (pinned ≡ some key)
    → check_pin pinned key ≡ ok tt
unfolding check_pin
check_pin_agrees none key h = refl
check_pin_agrees (some k) key h = ground (arith, h, beq_refl key)

generate_nonce_ready : (eph : Ephemeral) → 32 ≡ length eph.nonce → generate_nonce eph ≡ ok eph.nonce
unfolding generate_nonce
generate_nonce_ready eph h = ground (arith, h)

module _ (pair : HonestPair) where
  open pair use {
    p, i, r, eph_i, eph_r, works, ready_i, ready_r, ids_differ, keys_differ, shared, shared_r,
    shared_ok,
  }

  abbrev pub intro_i : Introduction
  intro_i = introduce i eph_i.public_key eph_i.nonce

  abbrev pub intro_r : Introduction
  intro_r = introduce r eph_r.public_key eph_r.nonce

  abbrev pub m1 : Bytes
  m1 = 3 ∷ 1 ∷ layout intro_i []

  abbrev pub body : Bytes
  body = 3 ∷ 2 ∷ layout intro_r []

  abbrev pub hello : HelloMessage
  hello = record { version = 3; introduction = intro_i; raw = m1 }

  pub hello_made : make_hello p i eph_i ≡ ok m1
  unfolding make_hello encode_hello
  hello_made =
      rw
        (
          generate_nonce_ready eph_i ready_i.valid.nonce_length,
          encode_introduction-IsValid p.unicode 1 intro_i ready_i.valid,
        )
        refl

  pub hello_read : read_hello p r m1 ≡ ok hello
  unfolding read_hello encode_hello
  hello_read =
      rw
        (
          decode_hello-encode_hello p.unicode 3 intro_i m1
              (encode_introduction-IsValid p.unicode 1 intro_i ready_i.valid) ready_i.public_ok,
          not_self i.own_device_id i.identity_public_key r.own_device_id r.identity_public_key
              ids_differ keys_differ,
        )
        refl

  short_hello : length m1 ≤ 65535
  short_hello =
      omega (arith, length-layout p.unicode intro_i [] ready_i.valid, ready_i.valid.id_high)

  short_body : length body ≤ 65535
  short_body =
      omega (arith, length-layout p.unicode intro_r [] ready_r.valid, ready_r.valid.id_high)

  -- The responder's values for message 2.
  pub record Opened : Type 0 where
    pub t2 : Bytes
    pub signed : Bytes
    pub secrets : HandshakeSecrets
    pub t2s : Bytes
    pub t2_eq : transcript_t2 p.sha256 m1 body ≡ ok t2
    pub signed_eq : signed_responder t2 ≡ ok signed
    pub secrets_eq :
        derive_secrets p.kdf shared i.own_device_id eph_i.public_key eph_i.nonce r.own_device_id
          eph_r.public_key eph_r.nonce t2
        ≡ ok secrets
    pub sized : IsSized secrets
    pub t2s_eq : transcript_t2s p.sha256 t2 (p.sign r.identity_private_key signed) ≡ ok t2s
    pub t2s_size : length t2s ≡ 32

  pub opened : Opened
  unfolding transcript_t2 transcript_t2s
  opened =
      let (t2, t2_eq, t2_size) =
        hash_two_parts p.sha256 works.length-sha256 t1 m1 body short_hello short_body in
      let (signed, signed_eq) = (signed_labels t2).0 in
      let (secrets, secrets_eq, sized) =
        derive_secrets_ready p.kdf works.kdf_law shared i.own_device_id eph_i.public_key eph_i.nonce
          r.own_device_id eph_r.public_key eph_r.nonce t2 shared_ok
          (omega (arith, ready_i.valid.id_high)) (omega (arith, ready_r.valid.id_high))
          (sym ready_i.valid.ephemeral_size) (sym ready_r.valid.ephemeral_size)
          (sym ready_i.valid.nonce_length) (sym ready_r.valid.nonce_length) t2_size in
      let (t2s, t2s_eq, t2s_size) =
        hash_part p.sha256 works.length-sha256 t2 (p.sign r.identity_private_key signed)
          (omega (arith, works.length-sign r.identity_private_key signed)) in
      record {
        t2 = t2;
        signed = signed;
        secrets = secrets;
        t2s = t2s;
        t2_eq = t2_eq;
        signed_eq = signed_eq;
        secrets_eq = secrets_eq;
        sized = sized;
        t2s_eq = t2s_eq;
        t2s_size = t2s_size;
      }

  module _ (o : Opened) where
    abbrev pub sig_r : Bytes
    sig_r = p.sign r.identity_private_key o.signed

    abbrev pub mac_r : Bytes
    mac_r = p.hmac_sha256 o.secrets.responder_confirmation_key o.t2s

    abbrev pub replied : Replied
    replied = record {
      secrets = o.secrets;
      t2s = o.t2s;
      mac_r = mac_r;
      reply_bytes = body ++ (sig_r ++ mac_r);
    }

    pub reply_encoded : encode_reply p.unicode 3 intro_r sig_r mac_r ≡ ok (body ++ (sig_r ++ mac_r))
    unfolding encode_reply encode_reply_body validate_bytes
    reply_encoded = ground (
      arith,
      works.length-sign r.identity_private_key o.signed,
      works.length-hmac o.secrets.responder_confirmation_key o.t2s,
      encode_introduction-IsValid p.unicode 2 intro_r ready_r.valid,
    )

    pub reply_made : make_reply p r eph_r m1 hello ≡ ok replied
    unfolding make_reply encode_reply_body derive_handshake_secrets
    reply_made =
        rw
          (
            generate_nonce_ready eph_r ready_r.valid.nonce_length,
            encode_introduction-IsValid p.unicode 2 intro_r ready_r.valid,
            o.t2_eq,
            o.signed_eq,
            shared_r,
            o.secrets_eq,
            o.t2s_eq,
            (mac_agrees p.hmac_sha256 works.length-hmac o.secrets.responder_confirmation_key o.t2s
                o.sized.responder_size o.t2s_size).0,
            reply_encoded,
          )
          refl

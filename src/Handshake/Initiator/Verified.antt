-- ===== src/Handshake/Initiator/Verified.antt =====
-- What the initiator of handshake_v3.py has verified before it pins a key, read off from the run
-- of its coroutines.
use secure_sync.Prelude.{◌≡◌, refl, sym, ap, subst, ◌⊎◌, true, Option, none, some, arith}
use secure_sync.Prelude.Bytes.{Bytes}
use secure_sync.Errors.{
  Result, ok, guard, guard_passed, >>=_cases, ok-injective, invalid_handshake_signature_error,
}
use secure_sync.Dict
use secure_sync.Dict.{Dict, lookup-insert}
use secure_sync.Messages.{HelloMessage, ReplyMessage, FinalMessage}
use secure_sync.Messages.Decode.{decode_hello, decode_final}
use secure_sync.Messages.Transcript.{transcript_t2, signed_responder}
use secure_sync.HandshakeKeys.{derive_handshake_secrets, verify_confirmation_mac}
use secure_sync.Handshake.{
  Primitives, HandshakeV3, Ephemeral, Answered, check_pin, make_hello, read_reply, answer_reply,
  answer_verified, judge_final, reraise_final, is_message_error,
}
use secure_sync.Handshake.Trust.{check_pin_cases}
use secure_sync.Handshake.World.{World, lift, get_trusted_key, read_message, write_message}
use secure_sync.Handshake.World.Steps.{
  Keeps, Keeps-book, book, >>=-Keeps, >>=_returns, lift_returns, Keeps-after, read_message-Keeps,
  write_message-Keeps,
}
use secure_sync.Handshake.Initiator.{
  HandshakeState, open_exchange, send_answer, answer_pinned, answer_exchange, await_final,
  authenticate_peer,
}

-- What a peer has proved when message 2 is accepted: it signed the transcript of the HELLO that was sent
-- and of its own REPLY, its key is the pinned one where there is a pin, and its MAC is that of the secrets,
-- which come from the shared secret of the two ephemeral keys.
pub record IsSignedReply (p : Primitives) (eph : Ephemeral) (hello_bytes : Bytes)
    (pinned : Option Bytes) (answered : Answered) : Type 0 where
  pub hello : HelloMessage
  pub t2 : Bytes
  pub signed : Bytes
  pub shared : Bytes
  pub hello_eq : decode_hello p.unicode hello_bytes ≡ ok hello
  pub t2_eq : transcript_t2 p.sha256 hello_bytes answered.reply.body ≡ ok t2
  pub signed_eq : signed_responder t2 ≡ ok signed
  pub signature : p.verify answered.reply.identity_public_key signed answered.reply.sig_r ≡ true
  pub pin : (pinned ≡ none) ⊎ (pinned ≡ some answered.reply.identity_public_key)
  pub shared_eq : p.derive_shared_secret eph.private_key answered.reply.ephemeral ≡ ok shared
  pub secrets_eq :
      derive_handshake_secrets p.kdf shared hello answered.reply t2 ≡ ok answered.secrets
  pub mac :
      verify_confirmation_mac p.hmac_sha256 answered.secrets.responder_confirmation_key answered.t2s
        answered.reply.mac_r
      ≡ ok tt

-- A run whose four messages were verified, up to the pin.
pub record IsAuthenticated (p : Primitives) (owner : HandshakeV3) (eph : Ephemeral)
    (trusted : Dict Bytes) (answered : Answered) : Type 0 where
  pub hello_bytes : Bytes
  pub final_bytes : Bytes
  pub final : FinalMessage
  pub made : make_hello p owner eph ≡ ok hello_bytes
  pub reply_signed :
      IsSignedReply p eph hello_bytes (Dict.lookup answered.reply.device_id trusted) answered
  pub decoded : decode_final final_bytes ≡ ok final
  pub judged : judge_final p owner answered final ≡ ok tt

reraise_final-eq-ok :
    (r : Result FinalMessage) {final : FinalMessage} → reraise_final r ≡ ok final → r ≡ ok final
unfolding reraise_final is_message_error
reraise_final-eq-ok r h = ground (arith, h)

module _ (p : Primitives) (owner : HandshakeV3) where
  answer_verified-reply :
      (eph : Ephemeral) (hello : HelloMessage) (reply : ReplyMessage) (t2 : Bytes)
      (answered : Answered)
      → answer_verified p owner eph hello reply t2 ≡ ok answered
      → answered.reply ≡ reply
  unfolding answer_verified
  answer_verified-reply eph hello reply t2 answered h = ground (arith, h)

  answer_verified_parts :
      (eph : Ephemeral) (hello : HelloMessage) (reply : ReplyMessage) (t2 : Bytes)
      (answered : Answered)
      → answer_verified p owner eph hello reply t2 ≡ ok answered
      → (shared : Bytes) × (p.derive_shared_secret eph.private_key reply.ephemeral ≡ ok shared)
        × (derive_handshake_secrets p.kdf shared hello reply t2 ≡ ok answered.secrets)
        × (verify_confirmation_mac p.hmac_sha256 answered.secrets.responder_confirmation_key
              answered.t2s reply.mac_r
            ≡ ok tt)
  unfolding answer_verified
  answer_verified_parts eph hello reply t2 answered h =
      >>=_cases (p.derive_shared_secret eph.private_key reply.ephemeral) _ h
        λ shared shared_eq h1. (shared, shared_eq, ground (arith, h1), ground (arith, h1))

  answer_reply_parts :
      (eph : Ephemeral) (hello_bytes : Bytes) (reply : ReplyMessage) (pinned : Option Bytes)
      (answered : Answered)
      → answer_reply p owner eph hello_bytes reply pinned ≡ ok answered
      → IsSignedReply p eph hello_bytes pinned answered × (answered.reply ≡ reply)
  unfolding answer_reply
  answer_reply_parts eph hello_bytes reply pinned answered h =
      >>=_cases (decode_hello p.unicode hello_bytes) _ h λ hello hello_eq h1.
        >>=_cases (transcript_t2 p.sha256 hello_bytes reply.body) _ h1 λ t2 t2_eq h2.
          >>=_cases (signed_responder t2) _ h2 λ signed signed_eq h3.
            let verified = p.verify reply.identity_public_key signed reply.sig_r in
            >>=_cases (guard verified invalid_handshake_signature_error) _ h3 λ u signature h4.
              >>=_cases (check_pin pinned reply.identity_public_key) _ h4 λ v pin h5.
                let same = answer_verified-reply eph hello reply t2 answered h5 in
                let (shared, shared_eq, secrets_eq, mac) =
                  answer_verified_parts eph hello reply t2 answered h5 in
                (
                  record {
                    hello = hello;
                    t2 = t2;
                    signed = signed;
                    shared = shared;
                    hello_eq = hello_eq;
                    t2_eq = rw same t2_eq;
                    signed_eq = signed_eq;
                    signature = rw same (guard_passed _ _ signature);
                    pin =
                        subst (λ a. (pinned ≡ none) ⊎ (pinned ≡ some a.identity_public_key))
                          (sym same) (check_pin_cases pinned reply.identity_public_key pin);
                    shared_eq =
                        subst (λ a. p.derive_shared_secret eph.private_key a.ephemeral ≡ ok shared)
                          (sym same) shared_eq;
                    secrets_eq = rw same secrets_eq;
                    mac = rw same mac;
                  },
                  same,
                )

  open_exchange-Keeps : (eph : Ephemeral) → Keeps book (open_exchange p owner eph)
  unfolding open_exchange
  open_exchange-Keeps eph =
      >>=-Keeps (lift (make_hello p owner eph)) _ (Keeps-book (λ w. refl)) λ hello_bytes.
        >>=-Keeps (write_message hello_bytes) _ (write_message-Keeps hello_bytes)
          λ u. Keeps-book (λ w. refl)

  send_answer-Keeps : (answered : Answered) → Keeps book (send_answer answered)
  unfolding send_answer
  send_answer-Keeps answered =
      >>=-Keeps (write_message answered.confirm_bytes) _
        (write_message-Keeps answered.confirm_bytes) λ u. Keeps-book (λ w. refl)

  answer_pinned-Keeps :
      (eph : Ephemeral) (hello_bytes : Bytes) (reply : ReplyMessage)
      → Keeps book (answer_pinned p owner eph hello_bytes reply)
  unfolding answer_pinned
  answer_pinned-Keeps eph hello_bytes reply =
      >>=-Keeps (get_trusted_key reply.device_id) _ (Keeps-book (λ w. refl)) λ pinned.
        >>=-Keeps (lift (answer_reply p owner eph hello_bytes reply pinned)) _
          (Keeps-book (λ w. refl)) send_answer-Keeps

  answer_exchange-Keeps :
      (eph : Ephemeral) (hello_bytes : Bytes) → Keeps book (answer_exchange p owner eph hello_bytes)
  unfolding answer_exchange
  answer_exchange-Keeps eph hello_bytes = >>=-Keeps read_message _ read_message-Keeps λ reply_bytes.
      >>=-Keeps (lift (read_reply p owner reply_bytes)) (answer_pinned p owner eph hello_bytes)
        (Keeps-book (λ w. refl)) (answer_pinned-Keeps eph hello_bytes)

  await_final-Keeps : (answered : Answered) → Keeps book (await_final p owner answered)
  unfolding await_final
  await_final-Keeps answered = >>=-Keeps read_message _ read_message-Keeps λ final_bytes.
      >>=-Keeps (lift (reraise_final (decode_final final_bytes))) _ (Keeps-book (λ w. refl))
        λ final. (Keeps-book (λ w. refl))

  pub authenticate_peer-Keeps : (eph : Ephemeral) → Keeps book (authenticate_peer p owner eph)
  unfolding authenticate_peer
  authenticate_peer-Keeps eph =
      >>=-Keeps (open_exchange p owner eph) _ (open_exchange-Keeps eph) λ hello_bytes.
        >>=-Keeps (answer_exchange p owner eph hello_bytes) _
          (answer_exchange-Keeps eph hello_bytes)
          λ answered.
            >>=-Keeps (await_final p owner answered) _ (await_final-Keeps answered)
              λ u. Keeps-book (λ w. refl)

  open_exchange-hello :
      (eph : Ephemeral) (w w1 : World HandshakeState) (hello_bytes : Bytes)
      → open_exchange p owner eph w ≡ (ok hello_bytes, w1)
      → make_hello p owner eph ≡ ok hello_bytes
  unfolding open_exchange
  open_exchange-hello eph w w1 hello_bytes h =
      lift_returns (make_hello p owner eph) _ w h
        λ made made_eq h1. >>=_returns (write_message made) _ w h1 λ u w2 _ h2. cc (made_eq, h2)

  send_answer-answered :
      (answered answered' : Answered) (w w1 : World HandshakeState)
      → send_answer answered w ≡ (ok answered', w1)
      → answered ≡ answered'
  unfolding send_answer
  send_answer-answered answered answered' w w1 h =
      >>=_returns (write_message answered.confirm_bytes) _ w h
        λ u w2 _ h1. ok-injective (ap (λ r. r.0) h1)

  answer_pinned_parts :
      (eph : Ephemeral) (hello_bytes : Bytes) (reply : ReplyMessage) (w w1 : World HandshakeState)
      (answered : Answered)
      → answer_pinned p owner eph hello_bytes reply w ≡ (ok answered, w1)
      → IsSignedReply p eph hello_bytes (Dict.lookup answered.reply.device_id w.trusted) answered
  unfolding answer_pinned
  answer_pinned_parts eph hello_bytes reply w w1 answered h =
      let pinned = Dict.lookup reply.device_id w.trusted in
      lift_returns (answer_reply p owner eph hello_bytes reply pinned) send_answer w h
        λ sent made h1.
          let (signed, same) = answer_reply_parts eph hello_bytes reply pinned sent made in
          let found : IsSignedReply p eph hello_bytes (Dict.lookup sent.reply.device_id w.trusted)
              sent =
            subst (λ r. IsSignedReply p eph hello_bytes (Dict.lookup r.device_id w.trusted) sent)
              (sym same) signed in
          subst (λ a. IsSignedReply p eph hello_bytes (Dict.lookup a.reply.device_id w.trusted) a)
            (send_answer-answered sent answered w w1 h1) found

  answer_exchange_parts :
      (eph : Ephemeral) (hello_bytes : Bytes) (w w1 : World HandshakeState) (answered : Answered)
      → answer_exchange p owner eph hello_bytes w ≡ (ok answered, w1)
      → IsSignedReply p eph hello_bytes (Dict.lookup answered.reply.device_id w.trusted) answered
  unfolding answer_exchange
  answer_exchange_parts eph hello_bytes w w1 answered h =
      >>=_returns read_message _ w h λ reply_bytes w2 read h1.
        lift_returns (read_reply p owner reply_bytes) (answer_pinned p owner eph hello_bytes) w2 h1
          λ reply _ h2.
            let signed = answer_pinned_parts eph hello_bytes reply w2 w1 answered h2 in
            subst
              (λ d.
                IsSignedReply p eph hello_bytes (Dict.lookup answered.reply.device_id d) answered)
              (ap (λ b. b.trusted) (Keeps-after read_message-Keeps read)) signed

  await_final_parts :
      (answered : Answered) (w w1 : World HandshakeState) (u : Unit {0})
      → await_final p owner answered w ≡ (ok u, w1)
      → (bytes : Bytes) × (final : FinalMessage) × (decode_final bytes ≡ ok final)
        × (judge_final p owner answered final ≡ ok tt)
  unfolding await_final
  await_final_parts answered w w1 u h = >>=_returns read_message _ w h λ bytes w2 _ h1.
      lift_returns (reraise_final (decode_final bytes)) _ w2 h1 λ final decoded h2.
        (bytes, final, reraise_final-eq-ok (decode_final bytes) decoded, ap (λ r. r.0) h2)

  -- What stands behind a returned `authenticate_peer`.
  pub authenticate_peer_parts :
      (eph : Ephemeral) (w w1 : World HandshakeState) (answered : Answered)
      → authenticate_peer p owner eph w ≡ (ok answered, w1)
      → IsAuthenticated p owner eph w.trusted answered
  unfolding authenticate_peer
  authenticate_peer_parts eph w w1 answered h =
      >>=_returns (open_exchange p owner eph) _ w h λ hello_bytes w2 opened h1.
        >>=_returns (answer_exchange p owner eph hello_bytes) _ w2 h1 λ sent w3 replied h2.
          >>=_returns (await_final p owner sent) _ w3 h2 λ u w4 awaited h3.
            let same : sent ≡ answered = ok-injective (ap (λ r. r.0) h3) in
            let (bytes, final, decoded, judged) = await_final_parts sent w3 w4 u awaited in
            let signed = answer_exchange_parts eph hello_bytes w2 w3 sent replied in
            subst (IsAuthenticated p owner eph w.trusted) same (record {
              hello_bytes = hello_bytes;
              final_bytes = bytes;
              final = final;
              made = open_exchange-hello eph w w2 hello_bytes opened;
              reply_signed =
                  subst
                    (λ d. IsSignedReply p eph hello_bytes (Dict.lookup sent.reply.device_id d) sent)
                    (ap (λ b. b.trusted) (Keeps-after (open_exchange-Keeps eph) opened)) signed;
              decoded = decoded;
              judged = judged;
            })

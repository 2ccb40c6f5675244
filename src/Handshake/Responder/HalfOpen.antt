-- ===== src/Handshake/Responder/HalfOpen.antt =====
-- The count of half-open exchanges in the responder of handshake_v3.py.
use secure_sync.Prelude.{
  ℕ, ◌+◌, ◌-◌, ◌≡◌, refl, ap, ◌∙◌, inl, inr, true, ◌⊎◌, Option, none, some, arith, leb, Bool-cases,
}
use secure_sync.Prelude.Bytes.{Bytes}
use secure_sync.Errors.{Result, ok, err, handshake_rate_limited_error}
use secure_sync.Frame.{role_responder}
use secure_sync.Messages.{HelloMessage, ConfirmMessage}
use secure_sync.HandshakeKeys.{keys_for_role}
use secure_sync.RateLimit.{GlobalHandshakeLimiter, admit}
use secure_sync.Handshake.{
  Primitives, HandshakeV3, Ephemeral, HandshakeResult, Replied, read_hello, make_reply,
  check_confirm, make_accept, make_reject, result_of,
}
use secure_sync.Handshake.World.{
  World, Run, ◌>>◌, return, lift, read_message, write_message, get_trusted_key, trust,
  begin_half_open, end_half_open, finally_end,
}
use secure_sync.Handshake.World.Steps.{
  Keeps, Keeps-part, >>=-Keeps, read_message-Keeps, write_message-Keeps,
}
use secure_sync.Handshake.Responder.{
  ResponderState, settle_state, notify, send_reply, send_accept, send_reject, pin_peer,
  verify_or_reject, verify_message_3, reject, or_reject, conclude, half_open_exchange, respond,
  run_responder, accept,
}

abbrev half_open_of : World ResponderState → ℕ
half_open_of w = w.half_open

abbrev Level {ℓ} : {A : Type ℓ} → Run ResponderState A → Type 0
Level m = Keeps half_open_of m

level {ℓ} :
    {A : Type ℓ} {m : Run ResponderState A}
    → ((w : World ResponderState) → (m w).1.half_open ≡ w.half_open)
    → Level m
level h = record { keeps = h }

read_message-Level : Level read_message
read_message-Level = Keeps-part (λ b. b.half_open) read_message-Keeps

write_message-Level : (payload : Bytes) → Level (write_message payload)
write_message-Level payload = Keeps-part (λ b. b.half_open) (write_message-Keeps payload)

notify-half_open :
    (on_confirmed : Option (HandshakeResult → Result (Unit {0}))) (result : HandshakeResult)
    → Level (notify on_confirmed result)
notify-half_open none result = level λ w. refl
notify-half_open (some f) result = level λ w. refl

module _ (p : Primitives) (owner : HandshakeV3) where
  send_reply-Level :
      (eph : Ephemeral) (m1 : Bytes) (hello : HelloMessage)
      → Level (send_reply p owner eph m1 hello)
  unfolding send_reply
  send_reply-Level eph m1 hello =
      >>=-Keeps (lift (make_reply p owner eph m1 hello)) _ (level λ w. refl) λ replied.
        >>=-Keeps (write_message replied.reply_bytes) _ (write_message-Level replied.reply_bytes)
          λ u. level λ w. refl

  send_accept-Level :
      (replied : Replied) (checked : ConfirmMessage × Bytes × HandshakeResult)
      → Level (send_accept p owner replied checked)
  unfolding send_accept
  send_accept-Level replied (confirm, t3s, result) =
      >>=-Keeps (lift (make_accept p owner replied confirm t3s)) _ (level λ w. refl) λ m4.
        >>=-Keeps (write_message m4) (λ u. return result) (write_message-Level m4)
          λ u. level λ w. refl

  send_reject-Level : (replied : Replied) (m3 : Bytes) → Level (send_reject p owner replied m3)
  unfolding send_reject
  send_reject-Level replied m3 =
      >>=-Keeps (lift (make_reject p owner replied m3)) _ (level λ w. refl) write_message-Level

  or_reject-Level :
      {A : Type 0} (replied : Replied) (m3 : Bytes) (r : Result A × World ResponderState)
      → (or_reject p owner replied m3 r).1.half_open ≡ r.1.half_open
  unfolding or_reject reject
  or_reject-Level replied m3 (ok a, w) = refl
  or_reject-Level replied m3 (err e, w) = (send_reject-Level replied m3).keeps w

module _ (p : Primitives) (owner : HandshakeV3)
    (on_confirmed : Option (HandshakeResult → Result (Unit {0}))) where
  pin_peer-Level :
      (hello : HelloMessage) (replied : Replied)
      → Level (pin_peer p owner on_confirmed hello replied)
  unfolding pin_peer
  pin_peer-Level hello replied =
      >>=-Keeps (trust hello.device_id hello.identity_public_key) _ (level λ w. refl) λ u.
        >>=-Keeps (lift (keys_for_role replied.secrets role_responder)) _ (level λ w. refl) λ keys.
          let result = result_of hello.device_id hello.transfer_port hello.manifest_port keys in
          >>=-Keeps (notify on_confirmed result) (λ v. return result)
            (notify-half_open on_confirmed result) λ v. level λ w. refl

  verify_message_3-Level :
      (hello : HelloMessage) (replied : Replied) (m3 : Bytes)
      → Level (verify_message_3 p owner on_confirmed hello replied m3)
  unfolding verify_message_3
  verify_message_3-Level hello replied m3 =
      >>=-Keeps (get_trusted_key hello.device_id) _ (level λ w. refl) λ pinned.
        >>=-Keeps (lift (check_confirm p owner hello replied m3 pinned)) _ (level λ w. refl)
          λ checked.
            >>=-Keeps (pin_peer p owner on_confirmed hello replied)
              (λ result. return (checked.0, checked.1, result)) (pin_peer-Level hello replied)
              λ result. level λ w. refl

  verify_or_reject-Level :
      (hello : HelloMessage) (replied : Replied) (m3 : Bytes)
      → Level (verify_or_reject p owner on_confirmed hello replied m3)
  unfolding verify_or_reject
  verify_or_reject-Level hello replied m3 = level λ w.
      or_reject-Level p owner replied m3 (verify_message_3 p owner on_confirmed hello replied m3 w)
      ∙ (verify_message_3-Level hello replied m3).keeps w

  conclude-Level :
      (hello : HelloMessage) (replied : Replied)
      → Level (conclude p owner on_confirmed hello replied)
  unfolding conclude
  conclude-Level hello replied = >>=-Keeps read_message _ read_message-Level λ m3.
      >>=-Keeps (verify_or_reject p owner on_confirmed hello replied m3) _
        (verify_or_reject-Level hello replied m3) (send_accept-Level p owner replied)

  half_open_exchange-Level :
      (eph : Ephemeral) (m1 : Bytes) (hello : HelloMessage)
      → Level (half_open_exchange p owner on_confirmed eph m1 hello)
  unfolding half_open_exchange
  half_open_exchange-Level eph m1 hello =
      >>=-Keeps (send_reply p owner eph m1 hello) _ (send_reply-Level p owner eph m1 hello)
        (conclude-Level hello)

  -- The counted part: the count goes up, and down again whatever happens.
  counted-Level :
      (eph : Ephemeral) (m1 : Bytes) (hello : HelloMessage)
      → Level (
          begin_half_open owner.max_half_open
          >> finally_end (half_open_exchange p owner on_confirmed eph m1 hello))
  unfolding begin_half_open end_half_open
  counted-Level eph m1 hello = level λ w. elim (Bool-cases (leb owner.max_half_open w.half_open)) [
    | inl full ↦ rw full refl
    | inr room ↦
        let w1 : World ResponderState = record w { half_open = w.half_open + 1 } in
        rw room (ap (λ n. n - 1) ((half_open_exchange-Level eph m1 hello).keeps w1) ∙ omega arith)
  ]

  respond-Level : (eph : Ephemeral) → Level (respond p owner on_confirmed eph)
  unfolding respond
  respond-Level eph =
      >>=-Keeps read_message _ read_message-Level
        λ m1. >>=-Keeps (lift (read_hello p owner m1)) _ (level λ w. refl) (counted-Level eph m1)

  run_responder-Level : (eph : Ephemeral) → Level (run_responder p owner on_confirmed eph)
  unfolding run_responder
  run_responder-Level eph =
      level λ w. settled (respond p owner on_confirmed eph w) ∙ (respond-Level eph).keeps w
    where
      settled :
          (r : Result HandshakeResult × World ResponderState)
          → (settle_state r).1.half_open ≡ r.1.half_open
      settled (ok a, w) = refl
      settled (err e, w) = refl

  -- After `accept`, whatever the outcome, as many exchanges are counted half open as before it; and a
  -- connection that the process-wide limit does not admit raises the rate-limit error and changes nothing.
  pub accept-half_open :
      (limiter : GlobalHandshakeLimiter) (now : ℕ) (eph : Ephemeral) (w : World ResponderState)
      → ((accept p owner on_confirmed limiter now eph w).0.1.half_open ≡ w.half_open)
        × (((admit limiter now).0 ≡ true)
            ⊎ ((accept p owner on_confirmed limiter now eph w).0
                ≡ (err handshake_rate_limited_error, w)))
  unfolding accept
  accept-half_open limiter now eph w =
      let kept = (run_responder-Level eph).keeps w in
      elim (Bool-cases (admit limiter now).0) [
        | inl admitted ↦ (rw admitted kept, inl admitted)
        | inr refused ↦ (rw refused refl, inr (rw refused refl))
      ]

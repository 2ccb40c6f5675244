-- ===== src/Handshake/Responder/Outcome.antt =====
-- The trust store and the recorded sessions after a run of the responder in handshake_v3.py.
use secure_sync.Prelude.{
  ◌+◌, ◌≡◌, refl, sym, ap, subst, ◌∙◌, ◌⊎◌, inl, inr, Option, ◌∷◌, leb, Bool-cases,
}
use secure_sync.Prelude.Bytes.{Bytes}
use secure_sync.Errors.{Error, Result, ok, err, handshake_busy_error}
use secure_sync.Dict
use secure_sync.Dict.{Dict}
use secure_sync.Frame.{role_responder}
use secure_sync.Messages.{HelloMessage}
use secure_sync.HandshakeKeys.{keys_for_role}
use secure_sync.Handshake.{
  Primitives, HandshakeV3, Ephemeral, HandshakeResult, Replied, read_hello, make_reply,
  check_confirm, result_of,
}
use secure_sync.Handshake.World.{
  World, continue, ◌>>=◌, ◌>>◌, lift, read_message, write_message, begin_half_open, end_half_open,
  finally_end,
}
use secure_sync.Handshake.World.Steps.{
  Keeps-after, >>=_elim, lift_elim, >>=_rest-Keeps, >>=_returns, lift_returns, >>=_return-world,
}
use secure_sync.Handshake.Responder.{
  ResponderState, notify, send_reply, reject, or_reject, pin_peer, verify_message_3,
  verify_or_reject, send_accept, conclude, half_open_exchange, respond,
}
use secure_sync.Handshake.Responder.Verified.{IsAuthenticated, check_confirm_parts}
use secure_sync.Handshake.Responder.Ledger.{
  Ledger, ledger, read_message-ledger, notify-ledger, send_reply-ledger, send_reject-ledger,
  or_reject-ledger, send_accept-ledger,
}

module _ (p : Primitives) (owner : HandshakeV3) where
  -- What a run of the responder that starts with some ledger may end with: they are as they were and the
  -- run raised, or message 3 was verified, the peer's key is pinned, and at most one result is recorded.
  pub record IsPinned (eph : Ephemeral) (start end : Ledger) (hello : HelloMessage) : Type 0 where
    pub authenticated : IsAuthenticated p owner eph start.trusted hello
    pub pinned : end.trusted ≡ Dict.insert hello.device_id hello.identity_public_key start.trusted
    pub recorded :
        (end.recorded ≡ start.recorded)
        ⊎ ((result : HandshakeResult) × (result.peer_device_id ≡ hello.device_id)
            × (end.recorded ≡ result ∷ start.recorded))

  abbrev pub Outcome {ℓ} :
      {A : Type ℓ} → Ephemeral → Ledger → Result A × World ResponderState → Type ℓ
  Outcome eph start r =
      ((e : Error) × (r.0 ≡ err e) × (ledger r.1 ≡ start))
      ⊎ ((hello : HelloMessage) × IsPinned eph start (ledger r.1) hello)

module _ (p : Primitives) (owner : HandshakeV3)
    (on_confirmed : Option (HandshakeResult → Result (Unit {0}))) where
  pin_peer-IsPinned :
      (eph : Ephemeral) (hello : HelloMessage) (replied : Replied) (w : World ResponderState)
      → IsAuthenticated p owner eph w.trusted hello
      → IsPinned p owner eph
          (ledger w)
          (ledger (pin_peer p owner on_confirmed hello replied w).1)
          hello
  unfolding pin_peer
  pin_peer-IsPinned eph hello replied w auth =
      let w1 : World ResponderState = record w {
        trusted = Dict.insert hello.device_id hello.identity_public_key w.trusted;
      } in
      lift_elim (λ r. IsPinned p owner eph (ledger w) (ledger r.1) hello)
        (keys_for_role replied.secrets role_responder) _ w1
        (λ e h. record { authenticated = auth; pinned = refl; recorded = inl refl })
        (λ keys h.
          let result = result_of hello.device_id hello.transfer_port hello.manifest_port keys in
          let (same, recorded) = notify-ledger on_confirmed result w1 in
          subst (λ w2. IsPinned p owner eph (ledger w) (ledger w2) hello)
            (sym (>>=_return-world (notify on_confirmed result) (λ u. result) w1))
            (record {
              authenticated = auth;
              pinned = same;
              recorded = elim recorded [ inl e ↦ inl e | inr e ↦ inr (result, refl, e) ];
            }))

  verify_message_3_cases :
      (eph : Ephemeral) (m1 : Bytes) (hello : HelloMessage) (replied : Replied) (m3 : Bytes)
      (w : World ResponderState)
      → read_hello p owner m1 ≡ ok hello
      → make_reply p owner eph m1 hello ≡ ok replied
      → ((e : Error) × (verify_message_3 p owner on_confirmed hello replied m3 w ≡ (err e, w)))
        ⊎ IsPinned p owner eph
            (ledger w)
            (ledger (verify_message_3 p owner on_confirmed hello replied m3 w).1)
            hello
  unfolding verify_message_3
  verify_message_3_cases eph m1 hello replied m3 w hello_eq replied_eq =
      let pinned = Dict.lookup hello.device_id w.trusted in
      lift_elim
        (λ r. ((e : Error) × (r ≡ (err e, w))) ⊎ IsPinned p owner eph (ledger w) (ledger r.1) hello)
        (check_confirm p owner hello replied m3 pinned) _ w (λ e h. inl (e, refl))
        (λ checked h. inr (
          subst (λ w2. IsPinned p owner eph (ledger w) (ledger w2) hello)
            (sym (
              >>=_return-world (pin_peer p owner on_confirmed hello replied)
                (λ result. (checked.0, checked.1, result)) w))
            (pin_peer-IsPinned eph hello replied w (record {
              m1 = m1;
              m3 = m3;
              replied = replied;
              hello_eq = hello_eq;
              replied_eq = replied_eq;
              confirm_signed = check_confirm_parts p owner hello replied m3 pinned checked h;
            }))))

  verify_or_reject_cases :
      (eph : Ephemeral) (m1 : Bytes) (hello : HelloMessage) (replied : Replied) (m3 : Bytes)
      (w : World ResponderState)
      → read_hello p owner m1 ≡ ok hello
      → make_reply p owner eph m1 hello ≡ ok replied
      → ((e : Error) × (w1 : World ResponderState) × (verify_or_reject p owner on_confirmed hello
              replied m3 w
            ≡ (err e, w1))
          × (ledger w1 ≡ ledger w))
        ⊎ IsPinned p owner eph
            (ledger w)
            (ledger (verify_or_reject p owner on_confirmed hello replied m3 w).1)
            hello
  unfolding verify_or_reject or_reject reject
  verify_or_reject_cases eph m1 hello replied m3 w hello_eq replied_eq =
      let verify = verify_message_3 p owner on_confirmed hello replied m3 w in
      elim (verify_message_3_cases eph m1 hello replied m3 w hello_eq replied_eq) [
        | inl (e, raised) ↦ inl (
          e,
          reject p owner replied m3 w,
          ap (or_reject p owner replied m3) raised,
          (send_reject-ledger p owner replied m3).keeps w,
        )
        | inr done ↦ inr (
            subst (λ l. IsPinned p owner eph (ledger w) l hello)
              (sym (or_reject-ledger p owner replied m3 verify)) done)
      ]

  conclude-Outcome :
      (eph : Ephemeral) (m1 : Bytes) (hello : HelloMessage) (replied : Replied)
      (w : World ResponderState)
      → read_hello p owner m1 ≡ ok hello
      → make_reply p owner eph m1 hello ≡ ok replied
      → Outcome p owner eph (ledger w) (conclude p owner on_confirmed hello replied w)
  unfolding conclude
  conclude-Outcome eph m1 hello replied w hello_eq replied_eq =
      >>=_elim (Outcome p owner eph (ledger w)) read_message _ w
        (λ e w1 h. inl (e, refl, Keeps-after read_message-ledger h))
        (λ m3 w1 h.
          subst
            (λ l. Outcome p owner eph l (
              (verify_or_reject p owner on_confirmed hello replied m3
                  >>= send_accept p owner replied)
                w1))
            (Keeps-after read_message-ledger h)
            (answered m3 w1
              (verify_or_reject_cases eph m1 hello replied m3 w1 hello_eq replied_eq)))
    where
      answered :
          (m3 : Bytes) (w1 : World ResponderState)
          → ((e : Error) × (w2 : World ResponderState) × (verify_or_reject p owner on_confirmed
                  hello replied m3 w1
                ≡ (err e, w2))
              × (ledger w2 ≡ ledger w1))
            ⊎ IsPinned p owner eph
                (ledger w1)
                (ledger (verify_or_reject p owner on_confirmed hello replied m3 w1).1)
                hello
          → Outcome p owner eph (ledger w1) (
              (verify_or_reject p owner on_confirmed hello replied m3
                  >>= send_accept p owner replied)
                w1)
      answered m3 w1 (inl (e, w2, raised, kept)) = inl (
        e,
        ap (λ r. (continue (send_accept p owner replied) r).0) raised,
        ap (λ r. ledger (continue (send_accept p owner replied) r).1) raised ∙ kept,
      )
      answered m3 w1 (inr done) = inr (
        hello,
        subst (λ l. IsPinned p owner eph (ledger w1) l hello)
            (sym (
              >>=_rest-Keeps (verify_or_reject p owner on_confirmed hello replied m3)
                (send_accept p owner replied) w1 (send_accept-ledger p owner replied)))
            done,
      )

  send_reply-replied :
      (eph : Ephemeral) (m1 : Bytes) (hello : HelloMessage) (replied : Replied)
      (w w1 : World ResponderState)
      → send_reply p owner eph m1 hello w ≡ (ok replied, w1)
      → make_reply p owner eph m1 hello ≡ ok replied
  unfolding send_reply
  send_reply-replied eph m1 hello replied w w1 h =
      lift_returns (make_reply p owner eph m1 hello) _ w h λ made made_eq h1.
        >>=_returns (write_message made.reply_bytes) _ w h1 λ u w2 _ h2. cc (made_eq, h2)

  half_open_exchange-Outcome :
      (eph : Ephemeral) (m1 : Bytes) (hello : HelloMessage) (w : World ResponderState)
      → read_hello p owner m1 ≡ ok hello
      → Outcome p owner eph (ledger w) (half_open_exchange p owner on_confirmed eph m1 hello w)
  unfolding half_open_exchange
  half_open_exchange-Outcome eph m1 hello w hello_eq =
      >>=_elim (Outcome p owner eph (ledger w)) (send_reply p owner eph m1 hello) _ w
        (λ e w1 h. inl (e, refl, Keeps-after (send_reply-ledger p owner eph m1 hello) h))
        (λ replied w1 h.
          subst (λ l. Outcome p owner eph l (conclude p owner on_confirmed hello replied w1))
            (Keeps-after (send_reply-ledger p owner eph m1 hello) h)
            (conclude-Outcome eph m1 hello replied w1 hello_eq
              (send_reply-replied eph m1 hello replied w w1 h)))

  counted-Outcome :
      (eph : Ephemeral) (m1 : Bytes) (hello : HelloMessage) (w : World ResponderState)
      → read_hello p owner m1 ≡ ok hello
      → Outcome p owner eph (ledger w) (
          (begin_half_open owner.max_half_open
              >> finally_end (half_open_exchange p owner on_confirmed eph m1 hello))
            w)
  unfolding begin_half_open end_half_open
  counted-Outcome eph m1 hello w hello_eq =
      elim (Bool-cases (leb owner.max_half_open w.half_open)) [
        | inl full ↦ rw full (inl (handshake_busy_error, refl, refl))
        | inr room ↦ rw room (
            half_open_exchange-Outcome eph m1 hello (record w { half_open = w.half_open + 1 })
              hello_eq)
      ]

  -- A run of `_exchange` raised with the ledger as it was, or pinned a peer that message 3 verified.
  pub respond-Outcome :
      (eph : Ephemeral) (w : World ResponderState)
      → Outcome p owner eph (ledger w) (respond p owner on_confirmed eph w)
  unfolding respond
  respond-Outcome eph w =
      >>=_elim (Outcome p owner eph (ledger w)) read_message _ w
        (λ e w1 h. inl (e, refl, Keeps-after read_message-ledger h))
        (λ m1 w1 h.
          subst
            (λ l. Outcome p owner eph l (
              (lift (read_hello p owner m1) >>= λ hello.
              begin_half_open owner.max_half_open
              >> finally_end (half_open_exchange p owner on_confirmed eph m1 hello))
                w1))
            (Keeps-after read_message-ledger h)
            (lift_elim (Outcome p owner eph (ledger w1)) (read_hello p owner m1) _ w1
              (λ e e_eq. inl (e, refl, refl))
              (λ hello hello_eq. counted-Outcome eph m1 hello w1 hello_eq)))

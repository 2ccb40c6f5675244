-- ===== src/Handshake/Responder/Ledger.antt =====
-- The parts of the world that a verified message 3 changes in the responder of handshake_v3.py, and the
-- coroutines that keep them.
use secure_sync.Prelude.{◌≡◌, refl, ◌⊎◌, inl, inr, Option, none, some, List, ◌∷◌}
use secure_sync.Prelude.Bytes.{Bytes}
use secure_sync.Errors.{Result, ok, err}
use secure_sync.Dict.{Dict}
use secure_sync.Messages.{HelloMessage, ConfirmMessage}
use secure_sync.Handshake.{
  Primitives, HandshakeV3, Ephemeral, HandshakeResult, Replied, make_reply, make_accept,
  make_reject,
}
use secure_sync.Handshake.World.{World, return, lift, read_message, write_message}
use secure_sync.Handshake.World.Steps.{
  Keeps, Keeps-part, >>=-Keeps, read_message-Keeps, write_message-Keeps,
}
use secure_sync.Handshake.Responder.{
  ResponderState, notify, send_reply, send_reject, reject, or_reject, send_accept,
}

-- The two parts of the world that a verified message 3 changes.
pub record Ledger : Type 0 where
  pub trusted : Dict Bytes
  pub recorded : List HandshakeResult

abbrev pub ledger : World ResponderState → Ledger
ledger w = record { trusted = w.trusted; recorded = w.recorded }

pub read_message-ledger : Keeps ledger (read_message {S = ResponderState})
read_message-ledger =
    Keeps-part (λ b. record { trusted = b.trusted; recorded = b.recorded }) read_message-Keeps

pub write_message-ledger :
    (payload : Bytes) → Keeps ledger (write_message {S = ResponderState} payload)
write_message-ledger payload =
    Keeps-part (λ b. record { trusted = b.trusted; recorded = b.recorded })
      (write_message-Keeps payload)

pub notify-ledger :
    (on_confirmed : Option (HandshakeResult → Result (Unit {0}))) (result : HandshakeResult)
    (w : World ResponderState)
    → ((notify on_confirmed result w).1.trusted ≡ w.trusted)
      × (((notify on_confirmed result w).1.recorded ≡ w.recorded)
          ⊎ ((notify on_confirmed result w).1.recorded ≡ result ∷ w.recorded))
notify-ledger none result w = (refl, inl refl)
notify-ledger (some f) result w = (refl, inr refl)

module _ (p : Primitives) (owner : HandshakeV3) where
  pub send_reply-ledger :
      (eph : Ephemeral) (m1 : Bytes) (hello : HelloMessage)
      → Keeps ledger (send_reply p owner eph m1 hello)
  unfolding send_reply
  send_reply-ledger eph m1 hello =
      >>=-Keeps (lift (make_reply p owner eph m1 hello)) _ (record { keeps = λ w. refl })
        λ replied.
          >>=-Keeps (write_message replied.reply_bytes) _ (write_message-ledger replied.reply_bytes)
            λ u. record { keeps = λ w. refl }

  pub send_reject-ledger :
      (replied : Replied) (m3 : Bytes) → Keeps ledger (send_reject p owner replied m3)
  unfolding send_reject
  send_reject-ledger replied m3 =
      >>=-Keeps (lift (make_reject p owner replied m3)) _ (record { keeps = λ w. refl })
        write_message-ledger

  pub or_reject-ledger :
      {A : Type 0} (replied : Replied) (m3 : Bytes) (r : Result A × World ResponderState)
      → ledger (or_reject p owner replied m3 r).1 ≡ ledger r.1
  unfolding or_reject reject
  or_reject-ledger replied m3 (ok a, w) = refl
  or_reject-ledger replied m3 (err e, w) = (send_reject-ledger replied m3).keeps w

  -- Message 4 changes nothing of the ledger.
  pub send_accept-ledger :
      (replied : Replied) (checked : ConfirmMessage × Bytes × HandshakeResult)
      → Keeps ledger (send_accept p owner replied checked)
  unfolding send_accept
  send_accept-ledger replied (confirm, t3s, result) =
      >>=-Keeps (lift (make_accept p owner replied confirm t3s)) _ (record { keeps = λ w. refl })
        λ m4.
          >>=-Keeps (write_message m4) (λ u. return result) (write_message-ledger m4)
            λ u. record { keeps = λ w. refl }

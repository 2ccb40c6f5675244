-- ===== src/Handshake/Responder/Pins.antt =====
-- The trust store, the recorded sessions and the state after a run of the responder in handshake_v3.py.
use secure_sync.Prelude.{◌≡◌, refl, ap, ◌∙◌, inl, inr, Option, some}
use secure_sync.Prelude.Bytes.{Bytes}
use secure_sync.Errors.{Result, ok, err}
use secure_sync.Dict
use secure_sync.Dict.{Dict}
use secure_sync.Handshake.{Primitives, HandshakeV3, Ephemeral, HandshakeResult}
use secure_sync.Handshake.Trust.{lookup-pin}
use secure_sync.Handshake.World.{World}
use secure_sync.Handshake.Responder.{ResponderState, settle_state, respond, run_responder}
use secure_sync.Handshake.Responder.Ledger.{ledger}
use secure_sync.Handshake.Responder.Outcome.{respond-Outcome}

module _ (p : Primitives) (owner : HandshakeV3)
    (on_confirmed : Option (HandshakeResult → Result (Unit {0}))) where
  settle_state-ledger :
      (r : Result HandshakeResult × World ResponderState) → ledger (settle_state r).1 ≡ ledger r.1
  settle_state-ledger (ok a, w) = refl
  settle_state-ledger (err e, w) = refl

  -- Whatever happens in a run of the responder, a device that had a pinned key keeps that key.
  pub run_responder-lookup :
      (eph : Ephemeral) (w : World ResponderState) (d k : Bytes)
      → Dict.lookup d w.trusted ≡ some k
      → Dict.lookup d (run_responder p owner on_confirmed eph w).1.trusted ≡ some k
  unfolding run_responder
  run_responder-lookup eph w d k h =
      let same = settle_state-ledger (respond p owner on_confirmed eph w) in
      elim (respond-Outcome p owner on_confirmed eph w) [
        | inl (e, raised, kept) ↦ ap (λ l. Dict.lookup d l.trusted) (same ∙ kept) ∙ h
        | inr (hello, c) ↦
            ap (λ l. Dict.lookup d l.trusted) same
            ∙ ap (Dict.lookup d) c.pinned
            ∙ lookup-pin d hello.device_id hello.identity_public_key k w.trusted
                c.authenticated.confirm_signed.pin h
      ]

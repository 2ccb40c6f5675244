-- ===== src/Handshake/Responder.antt =====
-- `_ResponderExchange` and `HandshakeV3.accept` of src/securesync/infrastructure/networking/handshake_v3.py.
pub mod HalfOpen
pub mod Verified
pub mod Ledger
pub mod Outcome
pub mod Pins
use secure_sync.Prelude.{ℕ, Bool, Option, none, some, List, [], ◌∷◌, ◌++◌, if◌then◌else◌}
use secure_sync.Prelude.Bytes.{Bytes}
use secure_sync.Errors.{Result, ok, err, Error, handshake_rate_limited_error}
use secure_sync.Frame.{role_responder}
use secure_sync.Messages.{HelloMessage, ConfirmMessage}
use secure_sync.HandshakeKeys.{keys_for_role}
use secure_sync.RateLimit.{GlobalHandshakeLimiter, admit}
use secure_sync.Handshake.{
  Primitives, HandshakeV3, Ephemeral, HandshakeResult, Replied, read_hello, make_reply,
  check_confirm, make_accept, make_reject, result_of,
}
use secure_sync.Handshake.World.{
  World, Run, ◌>>=◌, ◌>>◌, return, lift, enter, read_message, write_message, get_trusted_key, trust,
  begin_half_open, end_half_open, finally_end,
}

pub data ResponderState : Type 0 where
  wait_hello sent_reply confirmed failed : ResponderState

abbrev pub settle_state {ℓ} :
    {A : Type ℓ} → Result A × World ResponderState → Result A × World ResponderState
settle_state (ok a, w) = (ok a, record w { state = confirmed })
settle_state (err e, w) = (err e, record w { state = failed })

-- `if self._on_confirmed is not None: self._on_confirmed(result)`: what the callback returns or raises,
-- and the result it was called with.
abbrev pub notify :
    Option (HandshakeResult → Result (Unit {0})) → HandshakeResult → Run ResponderState (Unit {0})
notify none result w = (ok tt, w)
notify (some on_confirmed) result w =
    (on_confirmed result, record w { recorded = result ∷ w.recorded })

module _ (p : Primitives) (owner : HandshakeV3) where
  -- Message 2 is made and sent.
  unfoldable pub send_reply : Ephemeral → Bytes → HelloMessage → Run ResponderState Replied
  unfolding make_reply
  send_reply eph m1 hello = do
    replied ← lift (make_reply p owner eph m1 hello)
    write_message replied.reply_bytes
    enter sent_reply
    return replied

  -- Message 4 with the verdict, and the result.
  unfoldable pub send_accept :
      Replied → ConfirmMessage × Bytes × HandshakeResult → Run ResponderState HandshakeResult
  unfolding make_accept
  send_accept replied (confirm, t3s, result) = do
    m4 ← lift (make_accept p owner replied confirm t3s)
    write_message m4
    return result

  -- `_reject`
  unfoldable pub send_reject : Replied → Bytes → Run ResponderState (Unit {0})
  unfolding make_reject
  send_reject replied m3 = do m4 ← lift (make_reject p owner replied m3); write_message m4

  -- `with contextlib.suppress(Exception): await self._reject(...)`
  unfoldable pub reject : Replied → Bytes → World ResponderState → World ResponderState
  unfolding send_reject
  reject replied m3 w = (send_reject replied m3 w).1

  -- `except BaseException: ...; raise`
  unfoldable pub or_reject {ℓ} :
      {A : Type ℓ}
      → Replied
      → Bytes
      → Result A × World ResponderState
      → Result A × World ResponderState
  unfolding reject
  or_reject replied m3 (ok a, w) = (ok a, w)
  or_reject replied m3 (err e, w) = (err e, reject replied m3 w)

module _ (p : Primitives) (owner : HandshakeV3)
    (on_confirmed : Option (HandshakeResult → Result (Unit {0}))) where
  -- The end of `_verify_message_3`: the pin, the keys and the callback.
  unfoldable pub pin_peer : HelloMessage → Replied → Run ResponderState HandshakeResult
  unfolding keys_for_role
  pin_peer hello replied = do
    trust hello.device_id hello.identity_public_key
    keys ← lift (keys_for_role replied.secrets role_responder)
    notify on_confirmed (result_of hello.device_id hello.transfer_port hello.manifest_port keys)
    return (result_of hello.device_id hello.transfer_port hello.manifest_port keys)

  -- `_verify_message_3`
  unfoldable pub verify_message_3 :
      HelloMessage → Replied → Bytes → Run ResponderState (ConfirmMessage × Bytes × HandshakeResult)
  unfolding check_confirm pin_peer
  verify_message_3 hello replied m3 = do
    trusted ← get_trusted_key hello.device_id
    (confirm, t3s) ← lift (check_confirm p owner hello replied m3 trusted)
    result ← pin_peer hello replied
    return (confirm, t3s, result)

  -- Message 3 is verified, and refused with message 4 when that raises.
  unfoldable pub verify_or_reject :
      HelloMessage → Replied → Bytes → Run ResponderState (ConfirmMessage × Bytes × HandshakeResult)
  unfolding verify_message_3 or_reject
  verify_or_reject hello replied m3 w =
      or_reject p owner replied m3 (verify_message_3 hello replied m3 w)

  -- The exchange from message 3 on.
  unfoldable pub conclude : HelloMessage → Replied → Run ResponderState HandshakeResult
  unfolding verify_or_reject send_accept
  conclude hello replied = do
    m3 ← read_message
    checked ← verify_or_reject hello replied m3
    send_accept p owner replied checked

  -- The part under `try`.
  unfoldable pub half_open_exchange :
      Ephemeral → Bytes → HelloMessage → Run ResponderState HandshakeResult
  unfolding send_reply conclude
  half_open_exchange eph m1 hello = do
    replied ← send_reply p owner eph m1 hello
    conclude hello replied

  -- `_exchange`
  unfoldable pub respond : Ephemeral → Run ResponderState HandshakeResult
  unfolding read_hello begin_half_open half_open_exchange end_half_open
  respond eph = do
    m1 ← read_message
    hello ← lift (read_hello p owner m1)
    begin_half_open owner.max_half_open
    finally_end (half_open_exchange eph m1 hello)

  unfoldable pub run_responder : Ephemeral → Run ResponderState HandshakeResult
  unfolding respond
  run_responder eph w = settle_state (respond eph w)

  -- `HandshakeV3.accept`: the process-wide limit first.
  unfoldable pub accept :
      GlobalHandshakeLimiter
      → ℕ
      → Ephemeral
      → World ResponderState
      → (Result HandshakeResult × World ResponderState) × GlobalHandshakeLimiter
  unfolding run_responder
  accept limiter now eph w =
      let (admitted, limiter') = admit limiter now in
      (if admitted then run_responder eph w else (err handshake_rate_limited_error, w), limiter')

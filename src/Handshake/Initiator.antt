-- ===== src/Handshake/Initiator.antt =====
-- `_InitiatorExchange` of src/securesync/infrastructure/networking/handshake_v3.py.
pub mod Verified
pub mod Pins
use secure_sync.Prelude.{ℕ}
use secure_sync.Prelude.Bytes.{Bytes}
use secure_sync.Errors.{Result, ok, err}
use secure_sync.Frame.{role_initiator}
use secure_sync.KeySchedule.{SessionKeys}
use secure_sync.Messages.{ReplyMessage}
use secure_sync.Messages.Decode.{decode_final}
use secure_sync.HandshakeKeys.{keys_for_role}
use secure_sync.Handshake.{
  Primitives, HandshakeV3, Ephemeral, HandshakeResult, Answered, make_hello, read_reply,
  answer_reply, judge_final, reraise_final, result_of,
}
use secure_sync.Handshake.World.{
  World, Run, ◌>>=◌, ◌>>◌, return, lift, enter, read_message, write_message, get_trusted_key, trust,
}

pub data HandshakeState : Type 0 where
  idle sent_hello sent_confirm confirmed failed : HandshakeState

-- `run`: the exchange, and the state that its outcome sets.
abbrev pub settle_state {ℓ} :
    {A : Type ℓ} → Result A × World HandshakeState → Result A × World HandshakeState
settle_state (ok a, w) = (ok a, record w { state = confirmed })
settle_state (err e, w) = (err e, record w { state = failed })

-- Message 3 is sent: SENT_CONFIRM.
unfoldable pub send_answer : Answered → Run HandshakeState Answered
send_answer answered = do write_message answered.confirm_bytes; enter sent_confirm; return answered

module _ (p : Primitives) (owner : HandshakeV3) where
  -- IDLE to SENT_HELLO, and the reading of message 2.
  unfoldable pub open_exchange : Ephemeral → Run HandshakeState Bytes
  unfolding make_hello
  open_exchange eph = do
    hello_bytes ← lift (make_hello p owner eph)
    write_message hello_bytes
    enter sent_hello
    return hello_bytes

  -- Message 2 verified against the trust store, and answered.
  unfoldable pub answer_pinned : Ephemeral → Bytes → ReplyMessage → Run HandshakeState Answered
  unfolding answer_reply send_answer
  answer_pinned eph hello_bytes reply = do
    trusted ← get_trusted_key reply.device_id
    answered ← lift (answer_reply p owner eph hello_bytes reply trusted)
    send_answer answered

  -- SENT_HELLO to SENT_CONFIRM.
  unfoldable pub answer_exchange : Ephemeral → Bytes → Run HandshakeState Answered
  unfolding read_reply answer_pinned
  answer_exchange eph hello_bytes = do
    reply_bytes ← read_message
    reply ← lift (read_reply p owner reply_bytes)
    answer_pinned eph hello_bytes reply

  -- SENT_CONFIRM to the verdict of message 4.
  unfoldable pub await_final : Answered → Run HandshakeState (Unit {0})
  unfolding judge_final
  await_final answered = do
    final_bytes ← read_message
    final ← lift (reraise_final (decode_final final_bytes))
    lift (judge_final p owner answered final)

  -- The pin, and the result.
  unfoldable pub conclude : Answered → Run HandshakeState HandshakeResult
  unfolding keys_for_role
  conclude answered = do
    trust answered.reply.device_id answered.reply.identity_public_key
    keys ← lift (keys_for_role answered.secrets role_initiator)
    return (
        result_of answered.reply.device_id answered.reply.transfer_port answered.reply.manifest_port
          keys)

  -- The exchange up to the verified verdict.
  unfoldable pub authenticate_peer : Ephemeral → Run HandshakeState Answered
  unfolding open_exchange answer_exchange await_final
  authenticate_peer eph = do
    hello_bytes ← open_exchange eph
    answered ← answer_exchange eph hello_bytes
    await_final answered
    return answered

  -- `_exchange`
  unfoldable pub initiate : Ephemeral → Run HandshakeState HandshakeResult
  unfolding authenticate_peer conclude
  initiate eph = do answered ← authenticate_peer eph; conclude answered

  unfoldable pub run_initiator : Ephemeral → Run HandshakeState HandshakeResult
  unfolding initiate
  run_initiator eph w = settle_state (initiate eph w)

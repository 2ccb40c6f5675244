-- ===== src/Channel.antt =====
-- `SecureChannel` of src/securesync/infrastructure/networking/secure_channel.py. The AEAD cipher, msgpack
-- and the clocks are not part of the program: they are parameters.
pub mod Effects
pub mod Sealed
pub mod Delivery
pub mod Replay
pub mod Reflection
use secure_sync.Prelude.{ℕ, ◌+◌, Bool, true, not, Option, none, some, List, if◌then◌else◌, ◌==◌}
use secure_sync.Prelude.Int.{pos}
use secure_sync.Prelude.Bytes.{Bytes, beq}
use secure_sync.Errors.{
  Error, Result, ok, err, ◌>>=◌, unsupported_version_error, unknown_session_error,
  direction_mismatch_error, replay_window_rejected_error, authentication_error,
  nonce_mismatch_error, packet_type_mismatch_error, timestamp_skew_error,
}
use secure_sync.Frame.{
  FrameHeader, EncryptedPayload, frame_version, role_responder, encode_frame, split_frame,
  outgoing_direction, incoming_direction, derive_nonce, build_aad, check_timestamp_skew,
}
use secure_sync.Frame.Nonce.{nonce_counter}
use secure_sync.Window.{would_accept, accept}
use secure_sync.Dict
use secure_sync.Packet.{
  PacketType, Packet, PayloadCodec, type_value, encode_packet, decode_packet, make_header,
}
use secure_sync.Session.{PeerSession, allocate_counter, mark_active}
use secure_sync.Store.{SessionStore, get_by_session_id}

-- `AeadCipher` of domain/crypto.py, a port; `decrypt` raises if the tag does not verify.
pub record AeadCipher : Type 0 where
  pub encrypt : (plaintext key nonce associated_data : Bytes) → EncryptedPayload
  pub decrypt : (payload : EncryptedPayload) (key associated_data : Bytes) → Option Bytes

pub record SecureChannel : Type 0 where
  pub own_device_id : Bytes
  pub timestamp_skew_ms : ℕ

abbrev pub or_unauthentic : Option Bytes → Result Bytes
or_unauthentic none = err authentication_error
or_unauthentic (some framed) = ok framed

abbrev pub or_unknown : Option PeerSession → Result PeerSession
or_unknown none = err unknown_session_error
or_unknown (some session) = ok session

abbrev pub require {ℓ} : {A : Type ℓ} → Bool → Error → Result A → Result A
require test e rest = if test then rest else err e

-- Step (a): the pre-filters, which give the session.
unfoldable pub prefilter : SessionStore → FrameHeader → Bytes → Result PeerSession
prefilter st header nonce = require (header.version == frame_version) unsupported_version_error (
    or_unknown (get_by_session_id st header.session_id) >>= λ session.
    incoming_direction session.role >>= λ expected.
    require (header.direction == expected) direction_mismatch_error (
      require (would_accept session.receive_window (pos (nonce_counter nonce)))
        replay_window_rejected_error (ok session)))

-- Step (g), on the session whose window has accepted the counter.
unfoldable pub confirm_activity : PeerSession → ℕ → PeerSession
unfolding mark_active
confirm_activity session now =
    mark_active
      (if session.role == role_responder then record session { confirmed = true } else session) now

-- The frame's session is written back under the identifier that it was found by.
abbrev pub replace_session : SessionStore → Bytes → PeerSession → SessionStore
replace_session st session_id session = record st {
  by_session_id = Dict.insert session_id session st.by_session_id;
}

-- The end of `seal`, on the encrypted packet.
unfoldable pub emit :
    PeerSession
    → PacketType
    → ℕ
    → Result (ℕ × Bytes × EncryptedPayload)
    → Result Bytes × PeerSession
unfolding mark_active
emit session packet_type now (err e) = (err e, session)
emit session packet_type now (ok (direction, nonce, encrypted)) = (
  encode_frame
      (record {
        version = frame_version;
        direction = direction;
        packet_type = type_value packet_type;
        session_id = session.session_id;
      })
      nonce encrypted.ciphertext encrypted.tag,
  mark_active session now,
)

module _ (codec : PayloadCodec) (cipher : AeadCipher) (ch : SecureChannel) where
  open codec use {Payload}

  -- The part of `seal` between `allocate_counter` and `mark_active`.
  unfoldable pub seal_payload :
      PeerSession → ℕ → PacketType → Payload → ℕ → Result (ℕ × Bytes × EncryptedPayload)
  seal_payload session counter packet_type payload now_ms = do
    framed ←
        encode_packet codec
          (record { header = make_header packet_type counter 0 now_ms; payload = payload })
    direction ← outgoing_direction session.role
    nonce ← derive_nonce direction counter
    aad ←
        build_aad frame_version direction (type_value packet_type) session.session_id
          ch.own_device_id session.peer_id
    ok (direction, nonce, cipher.encrypt framed session.send_key nonce aad)

  -- `seal` after `allocate_counter`.
  unfoldable pub seal_counted :
      PeerSession
      → PacketType
      → Payload
      → ℕ
      → ℕ
      → Result (ℕ × PeerSession)
      → Result Bytes × PeerSession
  unfolding seal_payload emit
  seal_counted session packet_type payload now_ms now (err e) = (err e, session)
  seal_counted session packet_type payload now_ms now (ok (counter, session')) =
      emit session' packet_type now (seal_payload session' counter packet_type payload now_ms)

  -- What `seal` returns or raises, and the session afterwards: a counter that was allocated stays
  -- allocated when a later step raises. `now_ms` dates the packet, `now` the session's activity.
  unfoldable pub seal : PeerSession → PacketType → Payload → ℕ → ℕ → Result Bytes × PeerSession
  unfolding seal_counted allocate_counter
  seal session packet_type payload now_ms now =
      seal_counted session packet_type payload now_ms now (allocate_counter session)

  -- Steps (c) to (e) of `open`, on the decoded packet.
  unfoldable pub check_packet : FrameHeader → Bytes → Packet codec → ℕ → Result (Packet codec)
  check_packet header nonce packet clock_ms =
      derive_nonce header.direction packet.header.message_id >>= λ expected_nonce.
      require (beq nonce expected_nonce) nonce_mismatch_error (
        require (type_value packet.header.packet_type == header.packet_type)
          packet_type_mismatch_error
          (require (check_timestamp_skew packet.header.timestamp clock_ms ch.timestamp_skew_ms)
            timestamp_skew_error (ok packet)))

  -- Step (b): the associated data take the sender from the session, never from the packet.
  unfoldable pub authenticate : PeerSession → FrameHeader → EncryptedPayload → Result Bytes
  authenticate session header encrypted =
      build_aad header.version header.direction header.packet_type header.session_id session.peer_id
        ch.own_device_id
      >>= λ aad. or_unauthentic (cipher.decrypt encrypted session.receive_key aad)

  -- All of `open` up to the first mutation: the packet, the frame's session and its counter.
  unfoldable pub check_frame :
      SessionStore → Bytes → ℕ → Result (Packet codec × FrameHeader × PeerSession × ℕ)
  check_frame st frame clock_ms = split_frame frame >>= λ (header, nonce, encrypted).
      prefilter st header nonce >>= λ session. authenticate session header encrypted >>= λ framed.
      decode_packet codec framed >>= λ packet.
      check_packet header nonce packet clock_ms >>= λ packet.
      ok (packet, header, session, nonce_counter nonce)

  -- Steps (f) and (g) of `open` on the result of the checks: what it returns or raises, and the store
  -- afterwards.
  unfoldable pub settle :
      SessionStore
      → ℕ
      → Result (Packet codec × FrameHeader × PeerSession × ℕ)
      → Result (Packet codec × PeerSession) × SessionStore
  unfolding confirm_activity
  settle st now (err e) = (err e, st)
  settle st now (ok (packet, header, session, counter)) =
      let (fresh, window) = accept session.receive_window (pos counter) in
      let session' = confirm_activity (record session { receive_window = window }) now in
      if fresh then (ok (packet, session'), replace_session st header.session_id session') else (
        err replay_window_rejected_error,
        replace_session st header.session_id (record session { receive_window = window }),
      )

  unfoldable pub open_frame :
      SessionStore → Bytes → ℕ → ℕ → Result (Packet codec × PeerSession) × SessionStore
  unfolding check_frame settle
  open_frame st frame clock_ms now = settle st now (check_frame st frame clock_ms)

-- ===== src/Channel/Reflection.antt =====
-- `open` (secure_channel.py) on a frame that comes back to the device that sealed it.
use secure_sync.Prelude.{ℕ, ◌-◌, ◌%◌, ◌≡◌, ap, ◌∙◌, false, some, arith, ◌==◌}
use secure_sync.Prelude.Bytes.{Bytes}
use secure_sync.Errors.{ok, err, direction_mismatch_error}
use secure_sync.Frame.{outgoing_direction, incoming_direction}
use secure_sync.Frame.Codec.{split-encode}
use secure_sync.Packet.{PacketType, PayloadCodec}
use secure_sync.Session.{PeerSession}
use secure_sync.Store.{SessionStore, get_by_session_id}
use secure_sync.Channel.{
  AeadCipher, SecureChannel, seal, prefilter, check_frame, settle, open_frame,
}
use secure_sync.Channel.Sealed.{seal-Sealed}

-- The direction that a role sends in is one byte, and is not the one that it receives in.
pub directions_differ :
    (role out : ℕ)
    → outgoing_direction role ≡ ok out
    → (out % 256 ≡ out)
      × (inward : ℕ) × (incoming_direction role ≡ ok inward)
      × ((out == inward) ≡ false)
unfolding outgoing_direction incoming_direction
directions_differ role out e = (ground arith, 1 - out, ground arith, ground arith)

module _ (codec : PayloadCodec) (cipher : AeadCipher) (ch : SecureChannel) where
  open codec use {Payload}

  -- A frame that `seal` returned for a session is refused for its direction by every session in the
  -- same role that is stored under that identifier.
  pub reflected_frame_refused :
      (s own : PeerSession) (packet_type : PacketType) (payload : Payload)
      (now_ms now clock_ms now' : ℕ) (frame : Bytes) (st : SessionStore)
      → (seal codec cipher ch s packet_type payload now_ms now).0 ≡ ok frame
      → get_by_session_id st s.session_id ≡ some own
      → own.role ≡ s.role
      → (open_frame codec cipher ch st frame clock_ms now').0 ≡ err direction_mismatch_error
  unfolding open_frame check_frame prefilter settle
  reflected_frame_refused s own packet_type payload now_ms now clock_ms now' frame st e found role =
      let sealed = seal-Sealed codec cipher ch s packet_type payload now_ms now frame e in
      let (byte, inward, inward_eq, differ) =
        directions_differ s.role sealed.direction sealed.direction_eq in
      let expected : incoming_direction own.role ≡ ok inward =
        ap incoming_direction role ∙ inward_eq in
      rw (split-encode _ _ _ _ frame sealed.frame_eq)
        (ground (arith, found, expected, byte, differ))

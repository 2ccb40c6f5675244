-- ===== src/Channel/Delivery.antt =====
-- `seal` of one device followed by `open` of its peer (secure_channel.py).
use secure_sync.Prelude.{ℕ, ◌<◌, ◌≡◌, sym, ap, ◌∙◌, true, some, arith, []}
use mathlib.Core.List.{append-nil}
use secure_sync.Prelude.Int.{pos}
use secure_sync.Prelude.Bytes.{Bytes, beq_refl}
use secure_sync.Errors.{ok}
use secure_sync.Frame.{
  FrameHeader, EncryptedPayload, split_frame, outgoing_direction, incoming_direction,
  check_timestamp_skew,
}
use secure_sync.Frame.Codec.{split-encode}
use secure_sync.Frame.Nonce.{nonce_counter-derive_nonce}
use secure_sync.Window.{would_accept, accept}
use secure_sync.Packet.{
  Packet, PacketType, PayloadCodec, IsFaithful, type_value, decode_packet, make_header, stamped,
}
use secure_sync.Packet.Codec.{decode-encode}
use secure_sync.Session.{PeerSession}
use secure_sync.Store.{SessionStore, get_by_session_id}
use secure_sync.Channel.{
  AeadCipher, SecureChannel, seal, prefilter, authenticate, check_packet, check_frame, open_frame,
}
use secure_sync.Channel.Sealed.{Sealed, sent_header, sent_packet, seal-Sealed}
use secure_sync.Channel.Effects.{open_frame_passed}
use secure_sync.Channel.{confirm_activity}

-- What the program relies on: decryption under the same key, nonce and associated data gives the
-- plaintext back, and the payload carries the nonce that it was made with.
pub record IsAead (cipher : AeadCipher) : Type 0 where
  pub decrypt-encrypt :
      (plaintext key nonce aad : Bytes)
      → cipher.decrypt (cipher.encrypt plaintext key nonce aad) key aad ≡ some plaintext
  pub nonce-encrypt :
      (plaintext key nonce aad : Bytes) → (cipher.encrypt plaintext key nonce aad).nonce ≡ nonce

-- The two ends of a session: what one sends with, the other receives with.
pub record Paired (sender receiver : SecureChannel) (s r : PeerSession) : Type 0 where
  pub key : r.receive_key ≡ s.send_key
  pub sender_id : r.peer_id ≡ sender.own_device_id
  pub receiver_id : receiver.own_device_id ≡ s.peer_id
  pub direction : incoming_direction r.role ≡ outgoing_direction s.role

type_value-lt : (t : PacketType) → type_value t < 256
unfolding type_value
type_value-lt PacketType.hello = omega arith
type_value-lt _ = omega arith

direction-lt : (role direction : ℕ) → outgoing_direction role ≡ ok direction → direction < 256
unfolding outgoing_direction
direction-lt role direction e = ground arith

module _ (codec : PayloadCodec) (faithful : IsFaithful codec) (cipher : AeadCipher)
    (aead : IsAead cipher) (sender receiver : SecureChannel) (s r : PeerSession)
    (paired : Paired sender receiver s r) where
  open codec use {Payload}

  module _ (packet_type : PacketType) (payload : Payload) (now_ms : ℕ) (frame : Bytes)
      (sealed : Sealed codec cipher sender s packet_type payload now_ms frame) where
    open sealed use {framed, direction as way, nonce, aad}

    header : FrameHeader
    header = sent_header s packet_type way

    encrypted : EncryptedPayload
    encrypted = cipher.encrypt framed s.send_key nonce aad

    split_sealed : split_frame frame ≡ ok (header, nonce, encrypted)
    unfolding header encrypted
    split_sealed =
        split-encode header nonce encrypted.ciphertext encrypted.tag frame sealed.frame_eq
        ∙ ground (
          arith,
          aead.nonce-encrypt framed s.send_key nonce aad,
          type_value-lt packet_type,
          direction-lt s.role way sealed.direction_eq,
        )

    module _ (st : SessionStore) (clock_ms : ℕ) (found : get_by_session_id st s.session_id ≡ some r)
        (fresh : would_accept r.receive_window (pos s.next_send_counter) ≡ true)
        (in_time : check_timestamp_skew now_ms clock_ms receiver.timestamp_skew_ms ≡ true) where
      delivered : Packet codec
      delivered = record {
        header = stamped codec (make_header packet_type s.next_send_counter 0 now_ms) payload;
        payload = payload;
      }

      prefilter_passes : prefilter st header nonce ≡ ok r
      unfolding prefilter header
      prefilter_passes = ground (
        arith,
        found,
        paired.direction,
        sealed.direction_eq,
        nonce_counter-derive_nonce way s.next_send_counter nonce sealed.nonce_eq,
        fresh,
      )

      authenticates : authenticate codec cipher receiver r header encrypted ≡ ok framed
      unfolding authenticate header encrypted
      authenticates = ground (
        arith,
        paired.sender_id,
        paired.receiver_id,
        paired.key,
        sealed.aad_eq,
        aead.decrypt-encrypt framed s.send_key nonce aad,
      )

      decodes : decode_packet codec framed ≡ ok delivered
      unfolding delivered
      decodes =
          ap (decode_packet codec) (sym (append-nil framed))
          ∙ decode-encode codec faithful
              (sent_packet codec cipher sender packet_type payload s.next_send_counter now_ms)
              framed [] sealed.framed_eq

      packet_checks :
          check_packet codec cipher receiver header nonce delivered clock_ms ≡ ok delivered
      unfolding check_packet header delivered make_header
      packet_checks = ground (arith, sealed.nonce_eq, beq_refl nonce, in_time)

      frame_checks :
          check_frame codec cipher receiver st frame clock_ms
          ≡ ok (delivered, header, r, s.next_send_counter)
      unfolding check_frame
      frame_checks =
          rw (split_sealed, prefilter_passes, authenticates, decodes, packet_checks)
            (ap (λ k. ok (delivered, header, r, k))
              (nonce_counter-derive_nonce way s.next_send_counter nonce sealed.nonce_eq))

  -- A frame that `seal` returned is opened by the other end of the session to the sealed payload, under
  -- the sealed packet type, the allocated counter and the sealing time, if that end stores its session
  -- under the same identifier, its window accepts the counter and the clocks agree within the skew.
  pub open-seal :
      (packet_type : PacketType) (payload : Payload) (now_ms now clock_ms now' : ℕ) (frame : Bytes)
      (st : SessionStore)
      → (seal codec cipher sender s packet_type payload now_ms now).0 ≡ ok frame
      → get_by_session_id st s.session_id ≡ some r
      → would_accept r.receive_window (pos s.next_send_counter) ≡ true
      → check_timestamp_skew now_ms clock_ms receiver.timestamp_skew_ms ≡ true
      → (session : PeerSession) × ((open_frame codec cipher receiver st frame clock_ms now').0
          ≡ ok (
            record {
              header = stamped codec (make_header packet_type s.next_send_counter 0 now_ms) payload;
              payload = payload;
            },
            session,
          ))
  unfolding delivered
  open-seal packet_type payload now_ms now clock_ms now' frame st e found fresh in_time =
      let sealed = seal-Sealed codec cipher sender s packet_type payload now_ms now frame e in
      (
        confirm_activity
            (record r { receive_window = (accept r.receive_window (pos s.next_send_counter)).1 })
            now',
        ap (λ t. t.0)
            (open_frame_passed codec cipher receiver st frame clock_ms now' _ (
              frame_checks packet_type payload now_ms frame sealed st clock_ms found fresh
                in_time)),
      )

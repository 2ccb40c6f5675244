-- ===== src/Channel/Sealed.antt =====
-- The steps of a `seal` (secure_channel.py) that returned a frame.
use secure_sync.Prelude.{ℕ, ◌+◌, ◌≡◌, refl, sym, subst, arith}
use secure_sync.Prelude.Bytes.{Bytes}
use secure_sync.Errors.{Result, ok, err, >>=_cases, ok-injective}
use secure_sync.Frame.{
  FrameHeader, EncryptedPayload, frame_version, encode_frame, outgoing_direction, derive_nonce,
  build_aad,
}
use secure_sync.Packet.{Packet, PacketType, PayloadCodec, type_value, encode_packet, make_header}
use secure_sync.Session.{PeerSession, allocate_counter}
use secure_sync.Channel.{AeadCipher, SecureChannel, seal_payload, emit, seal_counted, seal}

abbrev pub sent_header : PeerSession → PacketType → ℕ → FrameHeader
sent_header s packet_type direction = record {
  version = frame_version;
  direction = direction;
  packet_type = type_value packet_type;
  session_id = s.session_id;
}

-- The session after `allocate_counter`.
abbrev counted : PeerSession → PeerSession
counted s = record s { next_send_counter = s.next_send_counter + 1; sent_count = s.sent_count + 1 }

allocate_counter-eq-ok :
    (s : PeerSession) (x : ℕ × PeerSession)
    → allocate_counter s ≡ ok x
    → x ≡ (s.next_send_counter, counted s)
unfolding allocate_counter
allocate_counter-eq-ok s x e = ground arith

emit_cases :
    (s : PeerSession) (packet_type : PacketType) (now : ℕ)
    (r : Result (ℕ × Bytes × EncryptedPayload)) (frame : Bytes)
    → (emit s packet_type now r).0 ≡ ok frame
    → (x : ℕ × Bytes × EncryptedPayload) × (r ≡ ok x)
      × (encode_frame (sent_header s packet_type x.0) x.1 x.2.ciphertext x.2.tag ≡ ok frame)
unfolding emit
emit_cases s packet_type now (err e) frame h = cc
emit_cases s packet_type now (ok x) frame h = (x, refl, h)

module _ (codec : PayloadCodec) (cipher : AeadCipher) (ch : SecureChannel) where
  open codec use {Payload}

  abbrev pub sent_packet : PacketType → Payload → ℕ → ℕ → Packet codec
  sent_packet packet_type payload counter now_ms = record {
    header = make_header packet_type counter 0 now_ms;
    payload = payload;
  }

  -- The steps of a `seal` that returned a frame.
  pub record Sealed (s : PeerSession) (packet_type : PacketType) (payload : Payload) (now_ms : ℕ)
      (frame : Bytes) : Type 0 where
    pub framed : Bytes
    pub direction : ℕ
    pub nonce : Bytes
    pub aad : Bytes
    pub framed_eq :
        encode_packet codec (sent_packet packet_type payload s.next_send_counter now_ms) ≡ ok framed
    pub direction_eq : outgoing_direction s.role ≡ ok direction
    pub nonce_eq : derive_nonce direction s.next_send_counter ≡ ok nonce
    pub aad_eq :
        build_aad frame_version direction
          (type_value packet_type)
          s.session_id
          ch.own_device_id
          s.peer_id
        ≡ ok aad
    pub frame_eq :
        let enc = cipher.encrypt framed s.send_key nonce aad in
        encode_frame (sent_header s packet_type direction) nonce enc.ciphertext enc.tag ≡ ok frame

  seal_counted_cases :
      (s : PeerSession) (packet_type : PacketType) (payload : Payload) (now_ms now : ℕ)
      (r : Result (ℕ × PeerSession)) (frame : Bytes)
      → (seal_counted codec cipher ch s packet_type payload now_ms now r).0 ≡ ok frame
      → (x : ℕ × PeerSession) × (r ≡ ok x)
        × ((emit x.1 packet_type now
              (seal_payload codec cipher ch x.1 x.0 packet_type payload now_ms)).0
            ≡ ok frame)
  unfolding seal_counted
  seal_counted_cases s packet_type payload now_ms now (err e) frame h = cc
  seal_counted_cases s packet_type payload now_ms now (ok x) frame h = (x, refl, h)

  seal_payload-Sealed :
      (s : PeerSession) (packet_type : PacketType) (payload : Payload) (now_ms : ℕ) (frame : Bytes)
      (x : ℕ × Bytes × EncryptedPayload)
      → seal_payload codec cipher ch (counted s) s.next_send_counter packet_type payload now_ms
        ≡ ok x
      → encode_frame (sent_header s packet_type x.0) x.1 x.2.ciphertext x.2.tag ≡ ok frame
      → Sealed s packet_type payload now_ms frame
  unfolding seal_payload
  seal_payload-Sealed s packet_type payload now_ms frame x h out =
      >>=_cases (encode_packet codec (sent_packet packet_type payload s.next_send_counter now_ms)) _
        h
        λ framed framed_eq h1.
          >>=_cases (outgoing_direction s.role) _ h1 λ direction direction_eq h2.
            >>=_cases (derive_nonce direction s.next_send_counter) _ h2 λ nonce nonce_eq h3.
              >>=_cases
                (build_aad frame_version direction (type_value packet_type) s.session_id
                  ch.own_device_id s.peer_id)
                _ h3
                λ aad aad_eq h4. record {
                  framed = framed;
                  direction = direction;
                  nonce = nonce;
                  aad = aad;
                  framed_eq = framed_eq;
                  direction_eq = direction_eq;
                  nonce_eq = nonce_eq;
                  aad_eq = aad_eq;
                  frame_eq =
                      subst
                        (λ (y : ℕ × Bytes × EncryptedPayload).
                          encode_frame (sent_header s packet_type y.0) y.1 y.2.ciphertext y.2.tag
                          ≡ ok frame)
                        (sym (ok-injective h4)) out;
                }

  pub seal-Sealed :
      (s : PeerSession) (packet_type : PacketType) (payload : Payload) (now_ms now : ℕ)
      (frame : Bytes)
      → (seal codec cipher ch s packet_type payload now_ms now).0 ≡ ok frame
      → Sealed s packet_type payload now_ms frame
  unfolding seal
  seal-Sealed s packet_type payload now_ms now frame h =
      let (x, allocated, emitted) =
        seal_counted_cases s packet_type payload now_ms now (allocate_counter s) frame h in
      let emitted' =
        subst
          (λ (y : ℕ × PeerSession).
            (emit y.1 packet_type now
              (seal_payload codec cipher ch y.1 y.0 packet_type payload now_ms)).0
            ≡ ok frame)
          (allocate_counter-eq-ok s x allocated) emitted in
      let (y, sealed, out) = emit_cases (counted s) packet_type now _ frame emitted' in
      seal_payload-Sealed s packet_type payload now_ms frame y sealed out

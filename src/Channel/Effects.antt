-- ===== src/Channel/Effects.antt =====
-- The checks of `SecureChannel.open` (secure_channel.py) and its effect on the store.
use secure_sync.Prelude.{
  ℕ, ◌≡◌, refl, sym, ap, subst, ◌∙◌, Bool, true, false, Option, none, some, arith, inl, inr, ◌==◌,
}
use secure_sync.Prelude.Int.{pos}
use secure_sync.Prelude.Bytes.{Bytes, beq, beq_iff}
use secure_sync.Errors.{Error, Result, ok, err, >>=-eq-ok, >>=_cases, Result-cases, ok-injective}
use secure_sync.Frame.{
  FrameHeader, EncryptedPayload, frame_version, split_frame, incoming_direction, derive_nonce,
  build_aad, check_timestamp_skew,
}
use secure_sync.Frame.Nonce.{nonce_counter}
use secure_sync.Window.{would_accept, accept}
use secure_sync.Window.Refinement.{accept-would_accept}
use secure_sync.Packet.{Packet, PayloadCodec, type_value, decode_packet}
use secure_sync.Session.{PeerSession}
use secure_sync.Store.{SessionStore, get_by_session_id}
use secure_sync.Channel.{
  AeadCipher, SecureChannel, require, or_unknown, or_unauthentic, check_packet, prefilter,
  authenticate, check_frame, confirm_activity, replace_session, settle, open_frame,
}

require-eq-ok {ℓ} :
    {A : Type ℓ} (test : Bool) (e : Error) (rest : Result A) {a : A}
    → require test e rest ≡ ok a
    → (test ≡ true) × (rest ≡ ok a)
require-eq-ok true e rest h = (refl, h)
require-eq-ok false e rest h = cc

or_unknown-eq-ok : (o : Option PeerSession) {s : PeerSession} → or_unknown o ≡ ok s → o ≡ some s
or_unknown-eq-ok none h = cc
or_unknown-eq-ok (some t) h = cc

or_unauthentic-eq-ok :
    (o : Option Bytes) {framed : Bytes} → or_unauthentic o ≡ ok framed → o ≡ some framed
or_unauthentic-eq-ok none h = cc
or_unauthentic-eq-ok (some t) h = cc

prefilter_parts :
    (st : SessionStore) (header : FrameHeader) (nonce : Bytes) (session : PeerSession)
    → prefilter st header nonce ≡ ok session
    → (header.version ≡ frame_version)
      × (get_by_session_id st header.session_id ≡ some session)
      × (incoming_direction session.role ≡ ok header.direction)
      × (would_accept session.receive_window (pos (nonce_counter nonce)) ≡ true)
unfolding prefilter
prefilter_parts st header nonce session e =
    let (v, e1) = require-eq-ok (header.version == frame_version) _ _ e in
    let (s, es, e2) = >>=-eq-ok (or_unknown (get_by_session_id st header.session_id)) _ e1 in
    let (d, ed, e3) = >>=-eq-ok (incoming_direction s.role) _ e2 in
    let (de, e4) = require-eq-ok (header.direction == d) _ _ e3 in
    let (wa, e5) =
      require-eq-ok (would_accept s.receive_window (pos (nonce_counter nonce))) _ _ e4 in
    let same : s ≡ session = cc e5 in
    let de' : header.direction ≡ d = ground (arith, de) in
    (
      ground (arith, v),
      or_unknown-eq-ok _ es ∙ ap some same,
      rw (← same) (ed ∙ ap ok (sym de')),
      rw (← same) wa,
    )

module _ (codec : PayloadCodec) (cipher : AeadCipher) (ch : SecureChannel) where
  -- Every check of `open` before its first mutation, passed by `frame`.
  pub record Checked (st : SessionStore) (frame : Bytes) (clock_ms : ℕ) (packet : Packet codec)
      (header : FrameHeader) (session : PeerSession) (counter : ℕ) : Type 0 where
    pub nonce : Bytes
    pub encrypted : EncryptedPayload
    pub aad : Bytes
    pub framed : Bytes
    pub split : split_frame frame ≡ ok (header, nonce, encrypted)
    pub version_eq : header.version ≡ frame_version
    pub found : get_by_session_id st header.session_id ≡ some session
    pub direction_eq : incoming_direction session.role ≡ ok header.direction
    pub counter_eq : nonce_counter nonce ≡ counter
    pub fresh : would_accept session.receive_window (pos counter) ≡ true
    pub aad_eq :
        build_aad header.version header.direction header.packet_type header.session_id
          session.peer_id ch.own_device_id
        ≡ ok aad
    pub authentic : cipher.decrypt encrypted session.receive_key aad ≡ some framed
    pub decoded : decode_packet codec framed ≡ ok packet
    pub nonce_eq : derive_nonce header.direction packet.header.message_id ≡ ok nonce
    pub type_eq : type_value packet.header.packet_type ≡ header.packet_type
    pub in_time : check_timestamp_skew packet.header.timestamp clock_ms ch.timestamp_skew_ms ≡ true

  check_packet_parts :
      (header : FrameHeader) (nonce : Bytes) (packet packet' : Packet codec) (clock_ms : ℕ)
      → check_packet codec cipher ch header nonce packet clock_ms ≡ ok packet'
      → (packet ≡ packet')
        × (derive_nonce header.direction packet.header.message_id ≡ ok nonce)
        × (type_value packet.header.packet_type ≡ header.packet_type)
        × (check_timestamp_skew packet.header.timestamp clock_ms ch.timestamp_skew_ms ≡ true)
  unfolding check_packet
  check_packet_parts header nonce packet packet' clock_ms e =
      let (n, en, e1) = >>=-eq-ok (derive_nonce header.direction packet.header.message_id) _ e in
      let (same, e2) = require-eq-ok (beq nonce n) _ _ e1 in
      let (ty, e3) =
        require-eq-ok (type_value packet.header.packet_type == header.packet_type) _ _ e2 in
      let (skew, e4) =
        require-eq-ok (check_timestamp_skew packet.header.timestamp clock_ms ch.timestamp_skew_ms) _
          _ e3 in
      (cc e4, en ∙ ap ok (sym ((beq_iff nonce n).0 same)), ground (arith, ty), skew)

  -- The result of `check_frame` as its last step writes it.
  abbrev CheckedAt :
      SessionStore → Bytes → ℕ → Packet codec × FrameHeader × PeerSession × ℕ → Type 0
  CheckedAt st frame clock_ms r = Checked st frame clock_ms r.0 r.1 r.2 r.3

  Checked-assemble :
      (st : SessionStore) (frame : Bytes) (clock_ms : ℕ) (h : FrameHeader) (n : Bytes)
      (enc : EncryptedPayload) (s : PeerSession) (framed : Bytes) (p p' : Packet codec)
      → split_frame frame ≡ ok (h, n, enc)
      → prefilter st h n ≡ ok s
      → authenticate codec cipher ch s h enc ≡ ok framed
      → decode_packet codec framed ≡ ok p
      → check_packet codec cipher ch h n p clock_ms ≡ ok p'
      → Checked st frame clock_ms p' h s (nonce_counter n)
  unfolding authenticate
  Checked-assemble st frame clock_ms h n enc s framed p p' esp epre eauth edec echk =
      >>=_cases
        (build_aad h.version h.direction h.packet_type h.session_id s.peer_id ch.own_device_id) _
        eauth
        λ aad eaad edecrypt.
          let (version, found, direction, fresh) = prefilter_parts st h n s epre in
          let (same, nonce_eq, type_eq, in_time) = check_packet_parts h n p p' clock_ms echk in
          subst (λ q. Checked st frame clock_ms q h s (nonce_counter n)) same
            (record {
              nonce = n;
              encrypted = enc;
              aad = aad;
              framed = framed;
              split = esp;
              version_eq = version;
              found = found;
              direction_eq = direction;
              counter_eq = refl;
              fresh = fresh;
              aad_eq = eaad;
              authentic = or_unauthentic-eq-ok _ edecrypt;
              decoded = edec;
              nonce_eq = nonce_eq;
              type_eq = type_eq;
              in_time = in_time;
            })

  pub check_frame-Checked :
      (st : SessionStore) (frame : Bytes) (clock_ms : ℕ)
      (r : Packet codec × FrameHeader × PeerSession × ℕ)
      → check_frame codec cipher ch st frame clock_ms ≡ ok r
      → CheckedAt st frame clock_ms r
  unfolding check_frame
  check_frame-Checked st frame clock_ms r e = >>=_cases (split_frame frame) _ e λ t esp e1.
      >>=_cases (prefilter st t.0 t.1) _ e1 λ s epre e2.
        >>=_cases (authenticate codec cipher ch s t.0 t.2) _ e2 λ framed eauth e3.
          >>=_cases (decode_packet codec framed) _ e3 λ p edec e4.
            >>=_cases (check_packet codec cipher ch t.0 t.1 p clock_ms) _ e4 λ p' echk e5.
              subst (CheckedAt st frame clock_ms) (ok-injective e5) (
                Checked-assemble st frame clock_ms t.0 t.1 t.2 s framed p p' esp epre eauth edec
                  echk)

  settle_passed :
      (st : SessionStore) (now : ℕ) (r : Packet codec × FrameHeader × PeerSession × ℕ)
      → (accept r.2.receive_window (pos r.3)).0 ≡ true
      → let s' =
          confirm_activity
            (record (r.2) { receive_window = (accept r.2.receive_window (pos r.3)).1 })
            now in
        settle codec cipher ch st now (ok r) ≡ (ok (r.0, s'), replace_session st r.1.session_id s')
  unfolding settle
  settle_passed st now (p, h, s, c) accepted = rw accepted

  -- What `open` answers and leaves behind, by the result of its checks.
  pub open_frame_passed :
      (st : SessionStore) (frame : Bytes) (clock_ms now : ℕ)
      (r : Packet codec × FrameHeader × PeerSession × ℕ)
      → check_frame codec cipher ch st frame clock_ms ≡ ok r
      → let s' =
          confirm_activity
            (record (r.2) { receive_window = (accept r.2.receive_window (pos r.3)).1 })
            now in
        open_frame codec cipher ch st frame clock_ms now
        ≡ (ok (r.0, s'), replace_session st r.1.session_id s')
  open_frame_passed st frame clock_ms now r e =
      let c = check_frame-Checked st frame clock_ms r e in
      let accepted : (accept r.2.receive_window (pos r.3)).0 ≡ true =
        accept-would_accept r.2.receive_window (pos r.3) ∙ c.fresh in
      unfold open_frame in ap (settle codec cipher ch st now) e ∙ settle_passed st now r accepted

  open_frame_failed :
      (st : SessionStore) (frame : Bytes) (clock_ms now : ℕ) (err_code : Error)
      → check_frame codec cipher ch st frame clock_ms ≡ err err_code
      → open_frame codec cipher ch st frame clock_ms now ≡ (err err_code, st)
  unfolding open_frame settle
  open_frame_failed st frame clock_ms now err_code e = ap (settle codec cipher ch st now) e

  -- A frame that `open` refuses, for whatever reason, leaves every session as it was.
  pub open_error_changes_nothing :
      (st : SessionStore) (frame : Bytes) (clock_ms now : ℕ) (err_code : Error)
      → (open_frame codec cipher ch st frame clock_ms now).0 ≡ err err_code
      → (open_frame codec cipher ch st frame clock_ms now).1 ≡ st
  open_error_changes_nothing st frame clock_ms now err_code h =
      elim (Result-cases (check_frame codec cipher ch st frame clock_ms)) [
        | inl (e, failed) ↦ rw (open_frame_failed st frame clock_ms now e failed)
        | inr (r, passed) ↦ cc (h, open_frame_passed st frame clock_ms now r passed)
      ]

  -- A packet that `open` returns has passed every check against one session of the store: version,
  -- direction, window, authenticity under the session's key and identities, nonce, packet type
  -- and time. The counter is marked in that session, and the session is stored under its identifier.
  pub open_ok_is_Checked :
      (st : SessionStore) (frame : Bytes) (clock_ms now : ℕ) (packet : Packet codec)
      (session' : PeerSession)
      → (open_frame codec cipher ch st frame clock_ms now).0 ≡ ok (packet, session')
      → (header : FrameHeader) × (session : PeerSession) × (counter : ℕ) × Checked st frame clock_ms
          packet header session counter
        × (session'
            ≡ confirm_activity
                (record session {
                  receive_window = (accept session.receive_window (pos counter)).1;
                })
                now)
        × ((open_frame codec cipher ch st frame clock_ms now).1
            ≡ replace_session st header.session_id session')
  open_ok_is_Checked st frame clock_ms now packet session' h =
      elim (Result-cases (check_frame codec cipher ch st frame clock_ms)) [
        | inl (e, failed) ↦ cc (h, open_frame_failed st frame clock_ms now e failed)
        | inr (r, passed) ↦
            let all = open_frame_passed st frame clock_ms now r passed in
            let same = ok-injective (sym (ap (λ t. t.0) all) ∙ h) in
            let packets = ap (λ t. t.0) same in
            let sessions = ap (λ t. t.1) same in
            (
              r.1,
              r.2,
              r.3,
              subst (λ p. Checked st frame clock_ms p r.1 r.2 r.3) packets
                  (check_frame-Checked st frame clock_ms r passed),
              sym sessions,
              ap (λ t. t.1) all ∙ ap (replace_session st r.1.session_id) sessions,
            )
      ]

-- ===== src/Channel/Replay.antt =====
-- `open` (secure_channel.py) on a frame that comes again, after any others.
use secure_sync.Prelude.{
  ℕ, ◌≡◌, refl, sym, ap, subst, ◌∙◌, true, false, some, arith, inl, inr, if◌then◌else◌, Bool-cases,
  List, [], ◌∷◌,
}
use secure_sync.Prelude.Int.{pos}
use secure_sync.Prelude.Bytes.{Bytes, beq, beq_iff, beq_refl}
use secure_sync.Errors.{ok, err, Result-cases, replay_window_rejected_error}
use secure_sync.Frame.{
  FrameHeader, EncryptedPayload, frame_version, split_frame, incoming_direction,
}
use secure_sync.Frame.Nonce.{nonce_counter}
use secure_sync.Dict
use secure_sync.Window.{AntiReplayWindow, would_accept, accept}
use secure_sync.Window.Spec.{contains, remember}
use secure_sync.Window.Refinement.{Represents, accept-remember, accept-would_accept}
use secure_sync.Window.NoReplay.{contains-remember, remember_fresh, remember_stale}
use secure_sync.Packet.{Packet, PayloadCodec}
use secure_sync.Session.{PeerSession}
use secure_sync.Store.{SessionStore, get_by_session_id}
use secure_sync.Channel.{
  AeadCipher, SecureChannel, prefilter, check_frame, settle, confirm_activity, replace_session,
  open_frame,
}
use secure_sync.Channel.Effects.{open_ok_is_Checked, open_error_changes_nothing}

-- The window of every stored session stands for some history of counters.
pub record IsTracked (st : SessionStore) : Type 0 where
  pub tracked :
      (sid : Bytes) (s : PeerSession)
      → get_by_session_id st sid ≡ some s
      → (n : ℕ) × (seen : List ℕ) × Represents n s.receive_window seen

-- The session stored under `sid` expects `direction` and has accepted `counter`.
pub record IsSpent (st : SessionStore) (sid : Bytes) (direction counter : ℕ) : Type 0 where
  pub session : PeerSession
  pub found : get_by_session_id st sid ≡ some session
  pub expected : incoming_direction session.role ≡ ok direction
  pub size : ℕ
  pub seen : List ℕ
  pub represents : Represents size session.receive_window seen
  pub used : contains counter seen ≡ true

role-confirm_activity : (s : PeerSession) (now : ℕ) → (confirm_activity s now).role ≡ s.role
unfolding confirm_activity
role-confirm_activity s now = ground arith

window-confirm_activity :
    (s : PeerSession) (now : ℕ) → (confirm_activity s now).receive_window ≡ s.receive_window
unfolding confirm_activity
window-confirm_activity s now = ground arith

get-replace_session :
    (st : SessionStore) (sid j : Bytes) (s : PeerSession)
    → get_by_session_id (replace_session st sid s) j
      ≡ (if beq sid j then some s else get_by_session_id st j)
unfolding get_by_session_id
get-replace_session st sid j s = Dict.lookup-insert sid j s st.by_session_id

-- A spent counter does not pass the window.
would_accept_spent :
    (n : ℕ) (w : AntiReplayWindow) (seen : List ℕ) (c : ℕ)
    → Represents n w seen
    → contains c seen ≡ true
    → would_accept w (pos c) ≡ false
would_accept_spent n w seen c v used =
    sym (accept-would_accept w (pos c))
    ∙ ((accept-remember n w seen (pos c) v).0 ∙ remember_stale n seen c used)

-- The session that `open` stores after it accepted `counter` for `s`.
abbrev advanced : PeerSession → ℕ → ℕ → PeerSession
advanced s counter now =
    confirm_activity (record s { receive_window = (accept s.receive_window (pos counter)).1 }) now

advanced-Represents :
    (s : PeerSession) (counter now n : ℕ) (seen : List ℕ)
    → Represents n s.receive_window seen
    → Represents n (advanced s counter now).receive_window (remember n seen (pos counter)).1
advanced-Represents s counter now n seen v =
    rw window-confirm_activity (accept-remember n s.receive_window seen (pos counter) v).1

-- Storing an advanced session keeps every spent counter spent.
IsSpent-replace :
    (st : SessionStore) (sid sid2 : Bytes) (direction counter counter2 now : ℕ) (s2 : PeerSession)
    → get_by_session_id st sid2 ≡ some s2
    → IsSpent st sid direction counter
    → IsSpent (replace_session st sid2 (advanced s2 counter2 now)) sid direction counter
IsSpent-replace st sid sid2 direction counter counter2 now s2 found2 spent =
    elim (Bool-cases (beq sid2 sid)) [
      | inl hit ↦
          let same : s2 ≡ spent.session =
            cc (sym found2, ap (get_by_session_id st) ((beq_iff sid2 sid).0 hit), spent.found) in
          record {
            session = advanced s2 counter2 now;
            found = get-replace_session st sid2 sid _ ∙ rw hit refl;
            expected =
                ap incoming_direction (role-confirm_activity _ now)
                ∙ (ap (λ (x : PeerSession). incoming_direction x.role) same ∙ spent.expected);
            size = spent.size;
            seen = (remember spent.size spent.seen (pos counter2)).1;
            represents = advanced-Represents s2 counter2 now spent.size spent.seen (
                subst (λ (x : PeerSession). Represents spent.size x.receive_window spent.seen)
                  (sym same) spent.represents);
            used = contains-remember spent.size spent.seen (pos counter2) counter spent.used;
          }
      | inr miss ↦ record {
        session = spent.session;
        found = get-replace_session st sid2 sid _ ∙ rw miss spent.found;
        expected = spent.expected;
        size = spent.size;
        seen = spent.seen;
        represents = spent.represents;
        used = spent.used;
      }
    ]

-- Accepting a counter spends it.
IsSpent-accepted :
    (st : SessionStore) (sid : Bytes) (direction counter now : ℕ) (s : PeerSession)
    → IsTracked st
    → get_by_session_id st sid ≡ some s
    → incoming_direction s.role ≡ ok direction
    → would_accept s.receive_window (pos counter) ≡ true
    → IsSpent (replace_session st sid (advanced s counter now)) sid direction counter
IsSpent-accepted st sid direction counter now s t found expected fresh =
    let (n, seen, v) = t.tracked sid s found in
    record {
      session = advanced s counter now;
      found = get-replace_session st sid sid _ ∙ rw (beq_refl sid) refl;
      expected = ap incoming_direction (role-confirm_activity _ now) ∙ expected;
      size = n;
      seen = (remember n seen (pos counter)).1;
      represents = advanced-Represents s counter now n seen v;
      used = remember_fresh n seen counter (
          sym (accept-remember n s.receive_window seen (pos counter) v).0
          ∙ (accept-would_accept s.receive_window (pos counter) ∙ fresh));
    }

module _ (codec : PayloadCodec) (cipher : AeadCipher) (ch : SecureChannel) where
  -- A frame of a spent counter is refused by the pre-filter.
  open_spent :
      (st : SessionStore) (frame : Bytes) (clock_ms now : ℕ) (header : FrameHeader) (nonce : Bytes)
      (encrypted : EncryptedPayload)
      → split_frame frame ≡ ok (header, nonce, encrypted)
      → header.version ≡ frame_version
      → IsSpent st header.session_id header.direction (nonce_counter nonce)
      → (open_frame codec cipher ch st frame clock_ms now).0 ≡ err replay_window_rejected_error
  unfolding open_frame check_frame prefilter settle
  open_spent st frame clock_ms now header nonce encrypted split version spent =
      let stale =
        would_accept_spent spent.size spent.session.receive_window spent.seen (nonce_counter nonce)
          spent.represents spent.used in
      rw split (ground (arith, version, spent.found, spent.expected, stale))

  -- Frames that arrive one after another: each with the clock's two readings.
  unfoldable pub open_all : SessionStore → List (Bytes × ℕ × ℕ) → SessionStore
  unfolding open_frame
  open_all st [] = st
  open_all st ((frame, clock_ms, now) ∷ frames) =
      open_all (open_frame codec cipher ch st frame clock_ms now).1 frames

  open_frame-IsSpent :
      (st : SessionStore) (sid : Bytes) (direction counter : ℕ) (frame : Bytes) (clock_ms now : ℕ)
      → IsSpent st sid direction counter
      → IsSpent (open_frame codec cipher ch st frame clock_ms now).1 sid direction counter
  open_frame-IsSpent st sid direction counter frame clock_ms now spent =
      elim (Result-cases (open_frame codec cipher ch st frame clock_ms now).0) [
        | inl (e, failed) ↦
            rw (open_error_changes_nothing codec cipher ch st frame clock_ms now e failed) spent
        | inr ((packet, s'), passed) ↦
            let (header, s, k, checked, s_eq, st_eq) =
              open_ok_is_Checked codec cipher ch st frame clock_ms now packet s' passed in
            subst (λ u. IsSpent u sid direction counter)
              (sym (st_eq ∙ ap (replace_session st header.session_id) s_eq))
              (IsSpent-replace st sid header.session_id direction counter k now s checked.found
                spent)
      ]

  open_all-IsSpent :
      (frames : List (Bytes × ℕ × ℕ)) (st : SessionStore) (sid : Bytes) (direction counter : ℕ)
      → IsSpent st sid direction counter
      → IsSpent (open_all st frames) sid direction counter
  unfolding open_all
  open_all-IsSpent [] st sid direction counter spent = spent
  open_all-IsSpent ((frame, clock_ms, now) ∷ frames) st sid direction counter spent =
      open_all-IsSpent frames (open_frame codec cipher ch st frame clock_ms now).1 sid direction
        counter (open_frame-IsSpent st sid direction counter frame clock_ms now spent)

  -- A frame that was accepted is refused by the replay window when it comes again, at any time and
  -- after any other frames, if every stored window stood for some history of counters.
  pub replayed_frame_refused :
      (st : SessionStore) (frame : Bytes) (clock_ms now clock_ms' now' : ℕ) (packet : Packet codec)
      (session : PeerSession) (between : List (Bytes × ℕ × ℕ))
      → IsTracked st
      → (open_frame codec cipher ch st frame clock_ms now).0 ≡ ok (packet, session)
      → (open_frame codec cipher ch
          (open_all (open_frame codec cipher ch st frame clock_ms now).1 between)
          frame
          clock_ms'
          now').0
        ≡ err replay_window_rejected_error
  replayed_frame_refused st frame clock_ms now clock_ms' now' packet session between t passed =
      let (header, s, k, checked, s_eq, st_eq) =
        open_ok_is_Checked codec cipher ch st frame clock_ms now packet session passed in
      let spent =
        subst (λ u. IsSpent u header.session_id header.direction k)
          (sym (st_eq ∙ ap (replace_session st header.session_id) s_eq))
          (IsSpent-accepted st header.session_id header.direction k now s t checked.found
            checked.direction_eq checked.fresh) in
      open_spent _ frame clock_ms' now' header checked.nonce checked.encrypted checked.split
        checked.version_eq
        (subst (IsSpent _ header.session_id header.direction) (sym checked.counter_eq)
          (open_all-IsSpent between _ header.session_id header.direction k spent))

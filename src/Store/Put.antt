-- ===== src/Store/Put.antt =====
-- `SessionStore.put` (session_store.py) as a whole.
use native.Mathlib.Nat.{lt_of_le_of_lt}
use secure_sync.Prelude.{
  ℕ, suc, ◌≤◌, ◌<◌, ◌≡◌, subst, ◌∙◌, false, none, some, [], ◌∷◌, ◌++◌, arith, ◌⊎◌, if◌then◌else◌,
  length, length-append,
}
use secure_sync.Prelude.Bytes.{Bytes, beq, beq_refl, mem}
use secure_sync.Errors.{ok}
use secure_sync.Dict
use secure_sync.Dict.{Dict, has, lookup-insert, length-insert-le}
use secure_sync.Session.{PeerSession}
use secure_sync.Store.{
  SessionStore, ids_of, enforce_peer_caps, enforce_global_cap, prune_expired, expired_ids,
  record_session, index_peer, put, get_by_session_id,
}
use secure_sync.Store.Index.{Indexed, record_session-Indexed}
use secure_sync.Store.Pruned.{Pruned, Pruned-trans, remove_all-Pruned}
use secure_sync.Store.Caps.{enforce_peer_caps_lem, trim_global_lem}

-- What `put` leaves behind.
pub record Recorded (st : SessionStore) (s : PeerSession) (st' : SessionStore) : Type 0 where
  pub indexed : Indexed st'
  pub policy_eq : st'.policy ≡ st.policy
  pub is_stored : get_by_session_id st' s.session_id ≡ some s
  pub others :
      (sid : Bytes)
      → beq s.session_id sid ≡ false
      → (get_by_session_id st' sid ≡ none) ⊎ (get_by_session_id st' sid ≡ get_by_session_id st sid)
  pub peer_cap : length (ids_of st' s.peer_id) ≤ st.max_sessions_per_peer
  pub global_cap : length st'.by_session_id ≤ st.global_session_cap

pub prune_expired-Pruned : (st : SessionStore) (now : ℕ) → Pruned st (prune_expired st now).0
unfolding prune_expired
prune_expired-Pruned st now = remove_all-Pruned st (expired_ids st now st.by_session_id)

length-ids_of-record_session :
    (st : SessionStore) (s : PeerSession)
    → length (ids_of (record_session st s) s.peer_id) ≤ suc (length (ids_of st s.peer_id))
unfolding record_session index_peer ids_of
length-ids_of-record_session st s = ground (
  arith,
  lookup-insert s.peer_id s.peer_id
      (if mem s.session_id (ids_of st s.peer_id)
        then ids_of st s.peer_id
        else ids_of st s.peer_id ++ s.session_id ∷ [])
      st.by_peer,
  length-append (ids_of st s.peer_id) (s.session_id ∷ []),
  beq_refl s.peer_id,
)

record_session-Recorded :
    (st st' : SessionStore) (s : PeerSession)
    → Indexed st
    → Pruned st st'
    → Dict.lookup s.session_id st.by_session_id ≡ none
    → length (ids_of st' s.peer_id) < st.max_sessions_per_peer
    → length st'.by_session_id < st.global_session_cap
    → Recorded st s (record_session st' s)
record_session-Recorded st st' s v p new peer_room room = record {
  indexed = record_session-Indexed st' s (p.indexed v) gone;
  policy_eq = unfold record_session index_peer in p.policy_eq;
  is_stored =
      unfold get_by_session_id record_session index_peer in
      (lookup-insert s.session_id s.session_id s st'.by_session_id
        ∙ ground (arith, beq_refl s.session_id));
  others = λ sid ne.
      unfold get_by_session_id record_session index_peer in
      ground (arith, lookup-insert s.session_id sid s st'.by_session_id, p.kept sid);
  peer_cap = omega (arith, length-ids_of-record_session st' s);
  global_cap =
      unfold record_session index_peer in
      omega (arith, length-insert-le s.session_id s st'.by_session_id);
}
  where
    gone : Dict.lookup s.session_id st'.by_session_id ≡ none
    gone = ground (arith, p.kept s.session_id)

put_steps :
    (st st1 st2 : SessionStore) (now : ℕ) (s : PeerSession)
    → length s.session_id ≡ 8
    → Dict.lookup s.session_id st.by_session_id ≡ none
    → enforce_peer_caps (prune_expired st now).0 s.peer_id ≡ ok st1
    → enforce_global_cap st1 ≡ ok st2
    → put st now s ≡ ok (record_session st2 s)
unfolding put
put_steps st st1 st2 now s len new e1 e2 = rw (len, new, e1, e2)

after_peer_caps :
    (st st1 : SessionStore) (now : ℕ) (s : PeerSession)
    → Indexed st
    → length s.session_id ≡ 8
    → Dict.lookup s.session_id st.by_session_id ≡ none
    → 0 < st.global_session_cap
    → enforce_peer_caps (prune_expired st now).0 s.peer_id ≡ ok st1
    → Pruned st st1
    → length (ids_of st1 s.peer_id) < st.max_sessions_per_peer
    → (st' : SessionStore) × (put st now s ≡ ok st') × Recorded st s st'
unfolding enforce_global_cap
after_peer_caps st st1 now s v len new pos e1 p peer_room =
    let (st2, e2, q, room) =
      trim_global_lem (suc (length st1.by_session_id)) st1 (omega arith) (rw p.policy_eq pos) in
    let room' = subst (λ pol. length st2.by_session_id < pol.global_session_cap) p.policy_eq room in
    (
      record_session st2 s,
      put_steps st st1 st2 now s len new e1 e2,
      record_session-Recorded st st2 s v (Pruned-trans p q) new
          (lt_of_le_of_lt (q.ids_size s.peer_id) peer_room) room',
    )

-- With positive caps, `put` of a session with an identifier of eight bytes that is not in use always
-- succeeds: the session is stored, no other session is changed or added, the index agrees with the
-- table, and neither the peer nor the store holds more sessions than its cap.
pub put_succeeds :
    (st : SessionStore) (now : ℕ) (s : PeerSession)
    → Indexed st
    → length s.session_id ≡ 8
    → get_by_session_id st s.session_id ≡ none
    → 0 < st.max_unconfirmed_per_peer
    → 0 < st.max_sessions_per_peer
    → 0 < st.global_session_cap
    → (st' : SessionStore) × (put st now s ≡ ok st') × Recorded st s st'
unfolding get_by_session_id
put_succeeds st now s v len new pos_u pos_s pos_g =
    let p0 = prune_expired-Pruned st now in
    let st0 = (prune_expired st now).0 in
    let (st1, e1, p1, room) =
      enforce_peer_caps_lem st0 s.peer_id (p0.indexed v) (rw p0.policy_eq pos_u)
        (rw p0.policy_eq pos_s) in
    let room' =
      subst (λ pol. length (ids_of st1 s.peer_id) < pol.max_sessions_per_peer) p0.policy_eq room in
    after_peer_caps st st1 now s v len new pos_g e1 (Pruned-trans p0 p1) room'

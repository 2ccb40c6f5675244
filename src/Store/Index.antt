-- ===== src/Store/Index.antt =====
-- The index by peer and the table by session identifier of `SessionStore` (session_store.py).
use secure_sync.Prelude.{
  ◌≡◌, refl, ◌∙◌, Bool, false, not, ◌&&◌, ◌||◌, Option, none, some, List, [], ◌∷◌, ◌++◌, arith, inl,
  inr, if◌then◌else◌, keep_if, Option-cases,
}
use secure_sync.Prelude.Bytes.{Bytes, beq, beq_iff, mem}
use secure_sync.Dict
use secure_sync.Dict.{Dict, has, lookup-insert, lookup-remove}
use secure_sync.Session.{PeerSession}
use secure_sync.Store.{
  SessionStore, Policy, empty_store, ids_of, or_empty, record_session, put_ids, unindex,
  remove_session, remove_all, index_peer,
}

-- The session, if any, is one of this peer's.
abbrev pub belongs : Bytes → Option PeerSession → Bool
belongs peer_id none = false
belongs peer_id (some s) = beq s.peer_id peer_id

-- An identifier stands in a peer's list exactly if a session of that peer is stored under it, and a
-- session is stored under its own identifier.
pub record Indexed (st : SessionStore) : Type 0 where
  pub listed :
      (sid peer_id : Bytes)
      → mem sid (ids_of st peer_id) ≡ belongs peer_id (Dict.lookup sid st.by_session_id)
  pub own_id :
      (sid : Bytes) (s : PeerSession)
      → Dict.lookup sid st.by_session_id ≡ some s
      → s.session_id ≡ sid
  pub distinct : Dict.IsDict st.by_session_id

pub empty_store-Indexed : (p : Policy) → Indexed (empty_store p)
unfolding empty_store ids_of Dict.lookup
empty_store-Indexed p = record {
  listed = λ sid peer_id. refl;
  own_id = λ sid s e. cc;
  distinct = tt;
}

pub mem-keep_if :
    (sid gone : Bytes) (ids : List Bytes)
    → mem sid (keep_if (λ x. not (beq x gone)) ids) ≡ (mem sid ids && not (beq sid gone))
mem-keep_if sid gone [] = refl
mem-keep_if sid gone (x ∷ ids) =
    ground (arith, mem-keep_if sid gone ids, beq_iff sid x, beq_iff x gone, beq_iff sid gone)

pub ids_of-put_ids :
    (p q : Bytes) (ids : List Bytes) (d : Dict (List Bytes))
    → or_empty (Dict.lookup q (put_ids p ids d))
      ≡ (if beq p q then ids else or_empty (Dict.lookup q d))
ids_of-put_ids p q [] d = ground (arith, lookup-remove p q d)
ids_of-put_ids p q (x ∷ ids) d = ground (arith, lookup-insert p q (x ∷ ids) d)

-- What is stored after a session is removed.
pub lookup-remove_session :
    (st : SessionStore) (gone sid : Bytes)
    → Dict.lookup sid (remove_session st gone).by_session_id
      ≡ (if beq gone sid then none else Dict.lookup sid st.by_session_id)
unfolding remove_session unindex
lookup-remove_session st gone sid =
    ground (arith, lookup-remove gone sid st.by_session_id, beq_iff gone sid)

pub mem-remove_session :
    (st : SessionStore) (gone sid peer_id : Bytes)
    → Indexed st
    → mem sid (ids_of (remove_session st gone) peer_id)
      ≡ (mem sid (ids_of st peer_id) && not (beq sid gone))
unfolding remove_session unindex ids_of
mem-remove_session st gone sid peer_id v = elim (Option-cases (Dict.lookup gone st.by_session_id)) [
  | inl e ↦
      rw (e, remove_session)
        (ground (arith, v.listed sid peer_id, v.listed gone peer_id, e, beq_iff sid gone))
  | inr (s, e) ↦
      rw (e, remove_session)
        (elim (Option-cases (Dict.lookup s.peer_id st.by_peer)) [
          | inl f ↦
              rw (f, unindex)
                (ground (
                  arith,
                  v.listed sid peer_id,
                  v.listed gone peer_id,
                  e,
                  f,
                  beq_iff sid gone,
                  beq_iff s.peer_id peer_id,
                ))
          | inr (ids, f) ↦
              rw (f, unindex)
                (ground (
                  arith,
                  v.listed sid peer_id,
                  v.listed gone peer_id,
                  e,
                  f,
                  beq_iff sid gone,
                  beq_iff s.peer_id peer_id,
                  mem-keep_if sid gone ids,
                  ids_of-put_ids s.peer_id peer_id (keep_if (λ x. not (beq x gone)) ids) st.by_peer,
                ))
        ])
]

pub policy-remove_session :
    (st : SessionStore) (gone : Bytes) → (remove_session st gone).policy ≡ st.policy
unfolding remove_session unindex
policy-remove_session st gone = ground arith

remove_session-IsDict :
    (st : SessionStore) (gone : Bytes)
    → Dict.IsDict st.by_session_id
    → Dict.IsDict (remove_session st gone).by_session_id
unfolding remove_session unindex
remove_session-IsDict st gone h = elim (Option-cases (Dict.lookup gone st.by_session_id)) [
  | inl e ↦ rw (e, remove_session) h
  | inr (s, e) ↦
      rw (e, remove_session)
        (elim (Option-cases (Dict.lookup s.peer_id st.by_peer)) [
          | inl f ↦ rw (f, unindex) (Dict.remove-IsDict gone st.by_session_id h)
          | inr (ids, f) ↦ rw (f, unindex) (Dict.remove-IsDict gone st.by_session_id h)
        ])
]

pub remove_session-Indexed :
    (st : SessionStore) (gone : Bytes) → Indexed st → Indexed (remove_session st gone)
remove_session-Indexed st gone v = record {
  listed = λ sid peer_id. ground (
    arith,
    mem-remove_session st gone sid peer_id v,
    lookup-remove_session st gone sid,
    v.listed sid peer_id,
    beq_iff gone sid,
    beq_iff sid gone,
  );
  own_id = λ sid s e. ground (arith, lookup-remove_session st gone sid, v.own_id sid s);
  distinct = remove_session-IsDict st gone v.distinct;
}

pub remove_all-Indexed :
    (st : SessionStore) (sids : List Bytes) → Indexed st → Indexed (remove_all st sids)
unfolding remove_all
remove_all-Indexed st [] v = v
remove_all-Indexed st (sid ∷ sids) v =
    remove_all-Indexed (remove_session st sid) sids (remove_session-Indexed st sid v)

pub lookup-remove_all :
    (st : SessionStore) (sids : List Bytes) (sid : Bytes)
    → Dict.lookup sid (remove_all st sids).by_session_id
      ≡ (if mem sid sids then none else Dict.lookup sid st.by_session_id)
unfolding remove_all
lookup-remove_all st [] sid = refl
lookup-remove_all st (x ∷ sids) sid = ground (
  arith,
  lookup-remove_all (remove_session st x) sids sid,
  lookup-remove_session st x sid,
  beq_iff x sid,
  beq_iff sid x,
)

pub policy-remove_all :
    (st : SessionStore) (sids : List Bytes) → (remove_all st sids).policy ≡ st.policy
unfolding remove_all
policy-remove_all st [] = refl
policy-remove_all st (sid ∷ sids) =
    policy-remove_all (remove_session st sid) sids ∙ policy-remove_session st sid

mem-append : (sid : Bytes) (xs ys : List Bytes) → mem sid (xs ++ ys) ≡ (mem sid xs || mem sid ys)
mem-append sid [] ys = refl
mem-append sid (x ∷ xs) ys = ground (arith, mem-append sid xs ys)

mem-record_session :
    (st : SessionStore) (s : PeerSession) (sid peer_id : Bytes)
    → mem sid (ids_of (record_session st s) peer_id)
      ≡ (mem sid (ids_of st peer_id) || (beq s.session_id sid && beq s.peer_id peer_id))
unfolding record_session ids_of
mem-record_session st s sid peer_id = ground (
  arith,
  lookup-insert s.peer_id peer_id
      (if mem s.session_id (ids_of st s.peer_id)
        then ids_of st s.peer_id
        else ids_of st s.peer_id ++ s.session_id ∷ [])
      st.by_peer,
  mem-append sid (ids_of st s.peer_id) (s.session_id ∷ []),
  beq_iff s.peer_id peer_id,
  beq_iff sid s.session_id,
  beq_iff s.session_id sid,
)

lookup-record_session :
    (st : SessionStore) (s : PeerSession) (sid : Bytes)
    → Dict.lookup sid (record_session st s).by_session_id
      ≡ (if beq s.session_id sid then some s else Dict.lookup sid st.by_session_id)
unfolding record_session
lookup-record_session st s sid = lookup-insert s.session_id sid s st.by_session_id

pub record_session-Indexed :
    (st : SessionStore) (s : PeerSession)
    → Indexed st
    → Dict.lookup s.session_id st.by_session_id ≡ none
    → Indexed (record_session st s)
record_session-Indexed st s v new = record {
  listed = λ sid peer_id. ground (
    arith,
    mem-record_session st s sid peer_id,
    lookup-record_session st s sid,
    v.listed sid peer_id,
    beq_iff s.session_id sid,
  );
  own_id = λ sid x e.
      ground (arith, lookup-record_session st s sid, v.own_id sid x, beq_iff s.session_id sid);
  distinct =
      unfold record_session index_peer in
      Dict.insert-IsDict s.session_id s st.by_session_id v.distinct;
}

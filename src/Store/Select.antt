-- ===== src/Store/Select.antt =====
-- `get_send_session` of `SessionStore` (session_store.py).
use secure_sync.Prelude.{
  ℕ, ◌≤◌, ◌≡◌, refl, sym, ap, subst, ◌∙◌, ◌&&◌, Bool, true, false, inl, inr, Bool-cases, Option,
  none, some, List, [], ◌∷◌, arith, ltb, if◌then◌else◌, keep_if,
}
use secure_sync.Prelude.Bytes.{Bytes, beq, beq_iff, beq_refl, mem}
use secure_sync.Dict
use secure_sync.Session.{PeerSession, can_send}
use secure_sync.Store.{
  SessionStore, get_by_session_id, ids_of, stored, sessions_for_peer, most_recent, most_recent?,
  get_send_session,
}
use secure_sync.Store.Index.{Indexed}

-- A predicate that holds of every session of a list.
abbrev pub Every : (PeerSession → Type 0) → List PeerSession → Type 0
Every Q [] = Unit
Every Q (s ∷ ss) = Q s × Every Q ss

Every-found :
    (Q : PeerSession → Type 0) (found : Option PeerSession) (ss : List PeerSession)
    → ((s : PeerSession) → found ≡ some s → Q s)
    → Every Q ss
    → Every Q (elim found [ none ↦ ss | some s ↦ s ∷ ss ])
Every-found Q none ss q h = h
Every-found Q (some s) ss q h = (q s refl, h)

Every-stored :
    (Q : PeerSession → Type 0) (st : SessionStore) (ids : List Bytes)
    → ((sid : Bytes) (s : PeerSession)
        → mem sid ids ≡ true
        → Dict.lookup sid st.by_session_id ≡ some s
        → Q s)
    → Every Q (stored st ids)
unfolding stored
Every-stored Q st [] h = tt
Every-stored Q st (sid ∷ sids) h =
    Every-found Q (Dict.lookup sid st.by_session_id) (stored st sids)
      (λ s e. h sid s (ground (arith, beq_refl sid)) e)
      (Every-stored Q st sids (λ i s m e. h i s (ground (arith, m)) e))

Every-kept :
    (Q : PeerSession → Type 0) (b : Bool) (s : PeerSession) (ss : List PeerSession)
    → (b ≡ true → Q s)
    → Every Q ss
    → Every Q (elim b [ true ↦ s ∷ ss | false ↦ ss ])
Every-kept Q true s ss q h = (q refl, h)
Every-kept Q false s ss q h = h

Every-keep_if :
    (Q : PeerSession → Type 0) (p : PeerSession → Bool) (ss : List PeerSession)
    → Every Q ss
    → Every (λ s. (p s ≡ true) × Q s) (keep_if p ss)
Every-keep_if Q p [] h = tt
Every-keep_if Q p (s ∷ ss) h =
    Every-kept (λ s. (p s ≡ true) × Q s) (p s) s (keep_if p ss) (λ e. (e, h.0))
      (Every-keep_if Q p ss h.1)

-- The chosen session is one of those it was chosen from, and none of them was active later.
Best : (PeerSession → Type 0) → PeerSession → List PeerSession → PeerSession → Type 0
Best Q best ss s =
    Q s
    × (best.last_activity ≤ s.last_activity)
    × Every (λ other. other.last_activity ≤ s.last_activity) ss

most_recent-Best :
    (Q : PeerSession → Type 0) (best : PeerSession) (ss : List PeerSession)
    → Q best
    → Every Q ss
    → Best Q best ss (most_recent best ss)
unfolding most_recent Best
most_recent-Best Q best [] q h = (q, omega arith, tt)
most_recent-Best Q best (s ∷ ss) q h =
    let (chosen, after_best, after_s) = later-Best (ltb best.last_activity s.last_activity) refl in
    let (good, after, others) =
      most_recent-Best Q (if ltb best.last_activity s.last_activity then s else best) ss chosen
        h.1 in
    (good, omega (arith, after, after_best), (omega (arith, after, after_s), others))
  where
    later-Best :
        (b : Bool)
        → b ≡ ltb best.last_activity s.last_activity
        → Q (if b then s else best)
          × (best.last_activity ≤ (if b then s else best).last_activity)
          × (s.last_activity ≤ (if b then s else best).last_activity)
    later-Best true e = (h.0, ground (arith, e), omega arith)
    later-Best false e = (q, omega arith, ground (arith, e))

-- `candidates` of `get_send_session`
abbrev pub candidates : SessionStore → ℕ → Bytes → List PeerSession
candidates st now peer_id =
    keep_if (λ s. can_send s now st.max_key_lifetime) (sessions_for_peer st peer_id)

-- The session, if any, is one of the peer's that may send.
abbrev pub is_usable : SessionStore → ℕ → Bytes → Option PeerSession → Bool
is_usable st now peer_id none = false
is_usable st now peer_id (some s) = beq s.peer_id peer_id && can_send s now st.max_key_lifetime

-- The session, if any, is one of the peer's that may send, and was active after the other one.
abbrev pub is_later : SessionStore → ℕ → Bytes → PeerSession → Option PeerSession → Bool
is_later st now peer_id chosen none = false
is_later st now peer_id chosen (some s) =
    is_usable st now peer_id (some s) && ltb chosen.last_activity s.last_activity

-- What `get_send_session` promises of what it returns, for all that the store holds.
abbrev pub IsChoice : SessionStore → ℕ → Bytes → Option PeerSession → Type 0
IsChoice st now peer_id none =
    (sid : Bytes) → is_usable st now peer_id (get_by_session_id st sid) ≡ false
IsChoice st now peer_id (some s) =
    (can_send s now st.max_key_lifetime ≡ true)
    × (get_by_session_id st s.session_id ≡ some s)
    × (s.peer_id ≡ peer_id)
    × ((sid : Bytes) → is_later st now peer_id s (get_by_session_id st sid) ≡ false)

Every-found_at :
    (Q : PeerSession → Type 0) (b : Bool) (t s : PeerSession) (ss : List PeerSession)
    → (b ≡ true → t ≡ s)
    → Every Q (t ∷ ss)
    → (b ≡ false → Q s)
    → Q s
Every-found_at Q true t s ss same h rest = subst Q (same refl) h.0
Every-found_at Q false t s ss same h rest = rest refl

Every-stored_step :
    (Q : PeerSession → Type 0) (found : Option PeerSession) (b : Bool) (s : PeerSession)
    → (ss : List PeerSession) → (b ≡ true → found ≡ some s)
    → Every Q (elim found [ none ↦ ss | some t ↦ t ∷ ss ])
    → (Every Q ss → b ≡ false → Q s)
    → Q s
Every-stored_step Q none true s ss same h rest = absurd (cc (same refl))
Every-stored_step Q none false s ss same h rest = rest h refl
Every-stored_step Q (some t) b s ss same h rest =
    Every-found_at Q b t s ss (λ e. cc (same e)) h (rest h.1)

Every-stored_at :
    (Q : PeerSession → Type 0) (st : SessionStore) (ids : List Bytes) (sid : Bytes)
    (s : PeerSession)
    → Every Q (stored st ids)
    → mem sid ids ≡ true
    → Dict.lookup sid st.by_session_id ≡ some s
    → Q s
unfolding stored
Every-stored_at Q st [] sid s h m e = absurd (cc m)
Every-stored_at Q st (i ∷ ids) sid s h m e =
    Every-stored_step Q (Dict.lookup i st.by_session_id) (beq sid i) s (stored st ids)
      (λ b. ap (λ x. Dict.lookup x st.by_session_id) (sym ((beq_iff sid i).0 b)) ∙ e) h
      (λ k d. Every-stored_at Q st ids sid s k (ground (arith, m, d)) e)

Every-kept_step :
    (Q : PeerSession → Type 0) (b : Bool) (s : PeerSession) (ss : List PeerSession)
    → Every Q (elim b [ true ↦ s ∷ ss | false ↦ ss ])
    → (b ≡ true → Q s) × Every Q ss
Every-kept_step Q true s ss h = (λ _. h.0, h.1)
Every-kept_step Q false s ss h = (λ e. absurd (cc e), h)

Every-kept_of :
    (Q : PeerSession → Type 0) (p : PeerSession → Bool) (ss : List PeerSession)
    → Every Q (keep_if p ss)
    → Every (λ s. p s ≡ true → Q s) ss
Every-kept_of Q p [] h = tt
Every-kept_of Q p (s ∷ ss) h =
    let (kept, rest) = Every-kept_step Q (p s) s (keep_if p ss) h in
    (kept, Every-kept_of Q p ss rest)

-- The candidates leave out no usable session of the store.
candidates_complete :
    (Q : PeerSession → Type 0) (st : SessionStore) (now : ℕ) (peer_id sid : Bytes) (s : PeerSession)
    → Indexed st
    → Every Q (candidates st now peer_id)
    → get_by_session_id st sid ≡ some s
    → is_usable st now peer_id (some s) ≡ true
    → Q s
unfolding sessions_for_peer get_by_session_id
candidates_complete Q st now peer_id sid s v h e u =
    Every-stored_at (λ s. can_send s now st.max_key_lifetime ≡ true → Q s) st (ids_of st peer_id)
      sid s
      (Every-kept_of Q (λ s. can_send s now st.max_key_lifetime) (sessions_for_peer st peer_id) h)
      (ground (arith, v.listed sid peer_id, e, u)) e (ground (arith, u))

own_session :
    (st : SessionStore) (peer_id : Bytes)
    → Indexed st
    → Every
        (λ s. (get_by_session_id st s.session_id ≡ some s) × (s.peer_id ≡ peer_id))
        (sessions_for_peer st peer_id)
unfolding sessions_for_peer get_by_session_id
own_session st peer_id v = Every-stored _ st (ids_of st peer_id) λ sid s m e. (
  ap (λ i. Dict.lookup i st.by_session_id) (v.own_id sid s e) ∙ e,
  (beq_iff s.peer_id peer_id).0 (owner sid s m e),
)
  where
    owner :
        (sid : Bytes) (s : PeerSession)
        → mem sid (ids_of st peer_id) ≡ true
        → Dict.lookup sid st.by_session_id ≡ some s
        → beq s.peer_id peer_id ≡ true
    owner sid s m e = ground (arith, v.listed sid peer_id, m, e)

most_recent_of :
    (Q : PeerSession → Type 0) (ss : List PeerSession) (s : PeerSession)
    → Every Q ss
    → most_recent? ss ≡ some s
    → Q s × Every (λ other. other.last_activity ≤ s.last_activity) ss
unfolding Best
most_recent_of Q [] s h e = cc
most_recent_of Q (b ∷ ss) s h e =
    let r = most_recent-Best Q b ss h.0 h.1 in
    subst (λ t. Q t × Every (λ other. other.last_activity ≤ t.last_activity) (b ∷ ss))
      (let same : most_recent b ss ≡ s = cc e in same) (r.0, (r.1, r.2))

none_usable :
    (st : SessionStore) (now : ℕ) (peer_id sid : Bytes)
    → Indexed st
    → most_recent? (candidates st now peer_id) ≡ none
    → is_usable st now peer_id (get_by_session_id st sid) ≡ false
none_usable st now peer_id sid v e = go (get_by_session_id st sid) refl
  where
    nothing : (ss : List PeerSession) → most_recent? ss ≡ none → Every (λ _. true ≡ false) ss
    nothing [] n = tt
    nothing (s ∷ ss) n = absurd (cc n)

    go :
        (found : Option PeerSession)
        → get_by_session_id st sid ≡ found
        → is_usable st now peer_id found ≡ false
    go none f = refl
    go (some s) f = elim (Bool-cases (is_usable st now peer_id (some s))) [
      | inl u ↦
          u
          ∙ candidates_complete _ st now peer_id sid s v (nothing (candidates st now peer_id) e) f u
      | inr u ↦ u
    ]

none_later :
    (st : SessionStore) (now : ℕ) (peer_id sid : Bytes) (chosen : PeerSession)
    → Indexed st
    → Every (λ s. s.last_activity ≤ chosen.last_activity) (candidates st now peer_id)
    → is_later st now peer_id chosen (get_by_session_id st sid) ≡ false
none_later st now peer_id sid chosen v h = go (get_by_session_id st sid) refl
  where
    go :
        (found : Option PeerSession)
        → get_by_session_id st sid ≡ found
        → is_later st now peer_id chosen found ≡ false
    go none f = refl
    go (some s) f = elim (Bool-cases (is_usable st now peer_id (some s))) [
      | inl u ↦
          let last : s.last_activity ≤ chosen.last_activity =
            candidates_complete (λ s. s.last_activity ≤ chosen.last_activity) st now peer_id sid s v
              h f u in
          ground (arith, u, last)
      | inr u ↦ ground (arith, u)
    ]

-- On an indexed store, when `get_send_session` returns a session, that session may send (it is
-- confirmed, within its lifetime and not exhausted), is stored under its identifier and is the peer's,
-- and no session that the store holds under any identifier is one of the peer's that may send and was
-- active later. When it returns none, the store holds no session of the peer that may send.
pub get_send_session-IsChoice :
    (st : SessionStore) (now : ℕ) (peer_id : Bytes)
    → Indexed st
    → IsChoice st now peer_id (get_send_session st now peer_id)
unfolding get_send_session
get_send_session-IsChoice st now peer_id v = go (most_recent? (candidates st now peer_id)) refl
  where
    go :
        (found : Option PeerSession)
        → most_recent? (candidates st now peer_id) ≡ found
        → IsChoice st now peer_id found
    go none e = λ sid. none_usable st now peer_id sid v e
    go (some s) e =
        let good =
          Every-keep_if _ (λ s. can_send s now st.max_key_lifetime) (sessions_for_peer st peer_id)
            (own_session st peer_id v) in
        let r = most_recent_of _ (candidates st now peer_id) s good e in
        (r.0.0, r.0.1.0, r.0.1.1, λ sid. none_later st now peer_id sid s v r.1)

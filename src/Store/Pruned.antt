-- ===== src/Store/Pruned.antt =====
-- Stores from which some sessions were removed and nothing else was changed.
use secure_sync.Prelude.{
  ◌≤◌, ◌<◌, ◌≡◌, refl, ap, ◌∙◌, true, not, none, some, List, [], ◌∷◌, arith, inl, inr, ◌⊎◌, length,
  Option-cases, keep_if, length-keep_if-le,
}
use native.Mathlib.Nat.{le_trans, le_refl}
use secure_sync.Prelude.Bytes.{Bytes, beq, beq_iff}
use secure_sync.Dict
use secure_sync.Dict.{Dict, has, length-remove-lt, length-remove-le, lookup-remove, lookup-insert}
use secure_sync.Session.{PeerSession}
use secure_sync.Store.{SessionStore, remove_session, remove_all, unindex, ids_of, or_empty, put_ids}
use secure_sync.Store.Index.{
  Indexed, remove_session-Indexed, lookup-remove_session, policy-remove_session, ids_of-put_ids,
}

pub record Pruned (st st' : SessionStore) : Type 0 where
  pub policy_eq : st'.policy ≡ st.policy
  pub size : length st'.by_session_id ≤ length st.by_session_id
  pub kept :
      (sid : Bytes)
      → (Dict.lookup sid st'.by_session_id ≡ none)
        ⊎ (Dict.lookup sid st'.by_session_id ≡ Dict.lookup sid st.by_session_id)
  pub ids_size : (peer_id : Bytes) → length (ids_of st' peer_id) ≤ length (ids_of st peer_id)
  pub indexed : Indexed st → Indexed st'

pub Pruned-refl : (st : SessionStore) → Pruned st st
Pruned-refl st = record {
  policy_eq = refl;
  size = le_refl _;
  kept = λ sid. inr refl;
  ids_size = λ peer_id. le_refl _;
  indexed = λ v. v;
}

pub Pruned-trans : {a b c : SessionStore} → Pruned a b → Pruned b c → Pruned a c
Pruned-trans {a} {b} {c} p q = record {
  policy_eq = q.policy_eq ∙ p.policy_eq;
  size = le_trans q.size p.size;
  kept = λ sid. ground (arith, p.kept sid, q.kept sid);
  ids_size = λ peer_id. le_trans (q.ids_size peer_id) (p.ids_size peer_id);
  indexed = λ v. q.indexed (p.indexed v);
}

by_session_id-remove_session :
    (st : SessionStore) (gone : Bytes) (s : PeerSession)
    → Dict.lookup gone st.by_session_id ≡ some s
    → (remove_session st gone).by_session_id ≡ Dict.remove gone st.by_session_id
unfolding remove_session unindex
by_session_id-remove_session st gone s e = ground arith

-- Removing a stored session makes the store smaller.
pub length-remove_session :
    (st : SessionStore) (gone : Bytes)
    → has (Dict.lookup gone st.by_session_id) ≡ true
    → length (remove_session st gone).by_session_id < length st.by_session_id
length-remove_session st gone h = elim (Option-cases (Dict.lookup gone st.by_session_id)) [
  | inl e ↦ cc (ap has e)
  | inr (s, e) ↦
      rw (by_session_id-remove_session st gone s e) (length-remove-lt gone st.by_session_id h)
]

length-remove_session-le :
    (st : SessionStore) (gone : Bytes)
    → length (remove_session st gone).by_session_id ≤ length st.by_session_id
unfolding remove_session unindex
length-remove_session-le st gone = ground (arith, length-remove-le gone st.by_session_id)

length-ids_of-put_ids :
    (p q gone : Bytes) (ids : List Bytes) (d : Dict (List Bytes))
    → Dict.lookup p d ≡ some ids
    → length (or_empty (Dict.lookup q (put_ids p (keep_if (λ sid. not (beq sid gone)) ids) d)))
      ≤ length (or_empty (Dict.lookup q d))
length-ids_of-put_ids p q gone ids d e = ground (
  arith,
  ids_of-put_ids p q (keep_if (λ sid. not (beq sid gone)) ids) d,
  length-keep_if-le (λ sid. not (beq sid gone)) ids,
  beq_iff p q,
  e,
)

length-ids_of-remove_session :
    (st : SessionStore) (gone peer_id : Bytes)
    → length (ids_of (remove_session st gone) peer_id) ≤ length (ids_of st peer_id)
unfolding remove_session unindex ids_of
length-ids_of-remove_session st gone peer_id =
    elim (Option-cases (Dict.lookup gone st.by_session_id)) [
      | inl e ↦ rw (e, remove_session) (le_refl _)
      | inr (s, e) ↦
          rw (e, remove_session)
            (elim (Option-cases (Dict.lookup s.peer_id st.by_peer)) [
              | inl f ↦ rw (f, unindex) (le_refl _)
              | inr (ids, f) ↦
                  rw (f, unindex) (length-ids_of-put_ids s.peer_id peer_id gone ids st.by_peer f)
            ])
    ]

pub remove_session-Pruned : (st : SessionStore) (gone : Bytes) → Pruned st (remove_session st gone)
remove_session-Pruned st gone = record {
  policy_eq = policy-remove_session st gone;
  size = length-remove_session-le st gone;
  kept = λ sid. ground (arith, lookup-remove_session st gone sid);
  ids_size = length-ids_of-remove_session st gone;
  indexed = remove_session-Indexed st gone;
}

pub remove_all-Pruned : (st : SessionStore) (sids : List Bytes) → Pruned st (remove_all st sids)
unfolding remove_all
remove_all-Pruned st [] = Pruned-refl st
remove_all-Pruned st (sid ∷ sids) =
    Pruned-trans (remove_session-Pruned st sid) (remove_all-Pruned (remove_session st sid) sids)

-- ===== src/Store/Expiry.antt =====
-- `prune_expired` and `remove_by_peer` of `SessionStore` (session_store.py).
use secure_sync.Prelude.{
  ℕ, ◌≡◌, refl, Bool, false, Option, none, some, [], ◌∷◌, arith, if◌then◌else◌,
}
use secure_sync.Prelude.Bytes.{Bytes, beq_iff, mem}
use secure_sync.Dict
use secure_sync.Dict.{Dict}
use secure_sync.Session.{PeerSession}
use secure_sync.Store.{
  SessionStore, expired_ids, is_expired, prune_expired, get_by_session_id, ids_of, remove_by_peer,
}
use secure_sync.Store.Index.{Indexed, lookup-remove_all, belongs}

abbrev pub has_expired : SessionStore → ℕ → Option PeerSession → Bool
has_expired st now none = false
has_expired st now (some s) = is_expired st s now

mem-expired_ids :
    (st : SessionStore) (now : ℕ) (d : Dict PeerSession) (sid : Bytes)
    → Dict.IsDict d
    → mem sid (expired_ids st now d) ≡ has_expired st now (Dict.lookup sid d)
unfolding expired_ids Dict.lookup
mem-expired_ids st now [] sid h = refl
mem-expired_ids st now ((k, s) ∷ d) sid h =
    ground (arith, mem-expired_ids st now d sid h.1, h.0, beq_iff k sid, beq_iff sid k)

-- After `prune_expired` on an indexed store, a stored session is gone if it had expired, and unchanged
-- if it had not; and nothing is found where nothing was stored.
pub get-prune_expired :
    (st : SessionStore) (now : ℕ) (sid : Bytes)
    → Indexed st
    → get_by_session_id (prune_expired st now).0 sid
      ≡ (if has_expired st now (get_by_session_id st sid) then none else get_by_session_id st sid)
unfolding prune_expired get_by_session_id
get-prune_expired st now sid v = ground (
  arith,
  lookup-remove_all st (expired_ids st now st.by_session_id) sid,
  mem-expired_ids st now st.by_session_id sid v.distinct,
)

-- On an indexed store, `remove_by_peer` leaves no session of the peer, and what is stored under every
-- other identifier as it was.
pub get-remove_by_peer :
    (st : SessionStore) (peer_id sid : Bytes)
    → Indexed st
    → get_by_session_id (remove_by_peer st peer_id).0 sid
      ≡ (if belongs peer_id (get_by_session_id st sid) then none else get_by_session_id st sid)
unfolding remove_by_peer get_by_session_id
get-remove_by_peer st peer_id sid v =
    ground (arith, lookup-remove_all st (ids_of st peer_id) sid, v.listed sid peer_id)

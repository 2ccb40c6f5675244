-- ===== src/Tests/Stores.antt =====
-- The session store's properties on stores with one or two sessions.
use secure_sync.Prelude.{◌≡◌, refl, false, none, some, [], ◌∷◌, arith, if◌then◌else◌, replicate}
use secure_sync.Prelude.Bytes.{Bytes, beq}
use secure_sync.Errors.{ok}
use secure_sync.Dict
use secure_sync.Session.{PeerSession, can_send}
use secure_sync.Store.{
  get_send_session, sessions_for_peer, stored, most_recent, ids_of, index_peer, SessionStore,
  empty_store, put, get_by_session_id, prune_expired, record_session, remove_by_peer,
}
use secure_sync.Store.Index.{Indexed, belongs, empty_store-Indexed, record_session-Indexed}
use secure_sync.Store.Select.{IsChoice, get_send_session-IsChoice}
use secure_sync.Store.Put.{Recorded, put_succeeds}
use secure_sync.Store.Expiry.{get-prune_expired, get-remove_by_peer, has_expired}
use secure_sync.Tests.Fixtures.{alice_session, small_policy, shared_id}

-- A store with one session of peer 2.
abbrev one_session : SessionStore
one_session = record_session (empty_store small_policy) alice_session

one_session-Indexed : Indexed one_session
unfolding empty_store Dict.lookup
one_session-Indexed =
    record_session-Indexed (empty_store small_policy) alice_session
      (empty_store-Indexed small_policy) refl

abbrev other_id : Bytes
other_id = replicate 8 3

abbrev second_session : PeerSession
second_session = record alice_session { session_id = other_id; confirmed = false }

put_succeeds_example :
    (st' : SessionStore) × (put one_session 20 second_session ≡ ok st')
    × Recorded one_session second_session st'
unfolding get_by_session_id record_session empty_store Dict.lookup Dict.insert beq
put_succeeds_example =
    put_succeeds one_session 20 second_session one_session-Indexed refl refl (omega arith)
      (omega arith) (omega arith)

get-prune_expired_example : get_by_session_id (prune_expired one_session 70).0 shared_id ≡ (
    if has_expired one_session 70 (get_by_session_id one_session shared_id)
    then none
    else get_by_session_id one_session shared_id)
get-prune_expired_example = get-prune_expired one_session 70 shared_id one_session-Indexed

-- A later session of the same peer, which may send too.
abbrev later_session : PeerSession
later_session = record alice_session { session_id = other_id; last_activity = 15 }

abbrev two_sessions : SessionStore
two_sessions = record_session one_session later_session

two_sessions-Indexed : Indexed two_sessions
unfolding record_session index_peer empty_store Dict.lookup Dict.insert beq
two_sessions-Indexed = record_session-Indexed one_session later_session one_session-Indexed refl

get_send_session-IsChoice_example : IsChoice two_sessions 20 (2 ∷ []) (some later_session)
unfolding get_send_session sessions_for_peer stored most_recent can_send ids_of record_session
    index_peer empty_store Dict.lookup Dict.insert beq
get_send_session-IsChoice_example =
    get_send_session-IsChoice two_sessions 20 (2 ∷ []) two_sessions-Indexed

-- Both sessions of the peer go.
get-remove_by_peer_example : get_by_session_id (remove_by_peer two_sessions (2 ∷ [])).0 other_id ≡ (
    if belongs (2 ∷ []) (get_by_session_id two_sessions other_id)
    then none
    else get_by_session_id two_sessions other_id)
get-remove_by_peer_example = get-remove_by_peer two_sessions (2 ∷ []) other_id two_sessions-Indexed

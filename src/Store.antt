-- ===== src/Store.antt =====
-- `SessionStore` of src/securesync/infrastructure/networking/session_store.py. The clock's reading is
-- an argument of each method that asks for it; a method that changes the store returns the new one.
-- A `while` loop runs on fuel, one round for each session in the store and one more, and each round that
-- goes on removes a session. The sessions are values: an object that Python shares is written back.
pub mod Index
pub mod Evict
pub mod Pruned
pub mod Expiry
pub mod Caps
pub mod Put
pub mod Select
use secure_sync.Prelude.{
  ℕ, zero, suc, ◌+◌, Bool, true, false, not, Option, none, some, List, [], ◌∷◌, ◌++◌, ltb, leb,
  if◌then◌else◌, length, keep_if, ◌==◌, any,
}
use secure_sync.Prelude.Bytes.{Bytes, beq, mem}
use secure_sync.Errors.{
  Result, ok, err, ◌>>=◌, ◌>>◌, guard, session_store_error, session_id_collision_error, key_error,
}
use secure_sync.Frame.{session_id_size}
use secure_sync.Dict
use secure_sync.Dict.{Dict, has}
use secure_sync.Session.{PeerSession, can_send}

pub record Policy : Type 0 where
  pub max_sessions_per_peer : ℕ
  pub max_unconfirmed_per_peer : ℕ
  pub global_session_cap : ℕ
  pub max_key_lifetime : ℕ
  pub idle_timeout_confirmed : ℕ
  pub idle_timeout_unconfirmed : ℕ

pub record SessionStore : Type 0 where
  pub policy : Policy
  pub open policy use *
  pub by_session_id : Dict PeerSession
  pub by_peer : Dict (List Bytes)

unfoldable pub empty_store : Policy → SessionStore
empty_store p = record { policy = p; by_session_id = []; by_peer = [] }

unfoldable pub get_by_session_id : SessionStore → Bytes → Option PeerSession
get_by_session_id st sid = Dict.lookup sid st.by_session_id

abbrev pub or_empty : Option (List Bytes) → List Bytes
or_empty none = []
or_empty (some ids) = ids

-- self._by_peer.get(peer_id, [])
unfoldable pub ids_of : SessionStore → Bytes → List Bytes
ids_of st peer_id = or_empty (Dict.lookup peer_id st.by_peer)

-- The index with a peer's identifiers replaced; the peer goes when none is left.
abbrev pub put_ids : Bytes → List Bytes → Dict (List Bytes) → Dict (List Bytes)
put_ids peer_id [] d = Dict.remove peer_id d
put_ids peer_id (sid ∷ sids) d = Dict.insert peer_id (sid ∷ sids) d

unfoldable pub unindex : SessionStore → Bytes → Bytes → Option (List Bytes) → SessionStore
unindex st peer_id session_id none = st
unindex st peer_id session_id (some ids) = record st {
  by_peer = put_ids peer_id (keep_if (λ sid. not (beq sid session_id)) ids) st.by_peer;
}

unfoldable pub remove_session : SessionStore → Bytes → SessionStore
unfolding unindex
remove_session st session_id = elim (Dict.lookup session_id st.by_session_id) [
  | none ↦ st
  | some session ↦
      unindex (record st { by_session_id = Dict.remove session_id st.by_session_id })
        session.peer_id session_id (Dict.lookup session.peer_id st.by_peer)
]

unfoldable pub remove_all : SessionStore → List Bytes → SessionStore
remove_all st [] = st
remove_all st (sid ∷ sids) = remove_all (remove_session st sid) sids

-- The candidate kept so far, against the next: a strictly smaller key replaces it, and the first one
-- beats `float("inf")`.
abbrev pub smaller_of : Option (Bytes × ℕ) → Bytes → ℕ → Option (Bytes × ℕ)
smaller_of none sid key = some (sid, key)
smaller_of (some (best, best_key)) sid key =
    if ltb key best_key then some (sid, key) else some (best, best_key)

-- One round of the loops that look for a session to evict; `want` is the confirmation state looked
-- for, `key` the time compared.
abbrev pub consider :
    Bool → (PeerSession → ℕ) → Option (Bytes × ℕ) → Bytes → Option PeerSession → Option (Bytes × ℕ)
consider want key best sid none = best
consider true key best sid (some s) = if s.confirmed then smaller_of best sid (key s) else best
consider false key best sid (some s) = if s.confirmed then best else smaller_of best sid (key s)

unfoldable pub find_victim :
    SessionStore → Bool → (PeerSession → ℕ) → Option (Bytes × ℕ) → List Bytes → Option (Bytes × ℕ)
find_victim st want key best [] = best
find_victim st want key best (sid ∷ sids) =
    find_victim st want key (consider want key best sid (Dict.lookup sid st.by_session_id)) sids

-- Whether a session was evicted, and the store afterwards.
unfoldable pub evict : SessionStore → Option (Bytes × ℕ) → Bool × SessionStore
evict st none = (false, st)
evict st (some (sid, _)) = (true, remove_session st sid)

unfoldable pub evict_oldest_created : SessionStore → List Bytes → Bool × SessionStore
unfolding find_victim evict
evict_oldest_created st candidates =
    evict st (find_victim st false (λ s. s.created_at) none candidates)

unfoldable pub evict_lru_confirmed : SessionStore → List Bytes → Bool × SessionStore
unfolding find_victim evict
evict_lru_confirmed st candidates =
    evict st (find_victim st true (λ s. s.last_activity) none candidates)

abbrev pub confirmed_at : Option PeerSession → Result Bool
confirmed_at none = err key_error
confirmed_at (some s) = ok s.confirmed

-- [sid for sid in ids if not self._by_session_id[sid].confirmed]; an unknown key is a `KeyError`.
unfoldable pub unconfirmed_of : SessionStore → List Bytes → Result (List Bytes)
unconfirmed_of st [] = ok []
unconfirmed_of st (sid ∷ sids) =
    let rest = unconfirmed_of st sids in
    confirmed_at (Dict.lookup sid st.by_session_id) >>= λ confirmed.
    rest >>= λ others. if confirmed then ok others else ok (sid ∷ others)

-- The first loop of `_enforce_peer_caps`.
unfoldable pub trim_unconfirmed : ℕ → SessionStore → Bytes → List Bytes → Result SessionStore
unfolding evict_oldest_created unconfirmed_of ids_of
trim_unconfirmed zero st peer_id unconfirmed = ok st
trim_unconfirmed (suc fuel) st peer_id unconfirmed =
    let evicted = evict_oldest_created st unconfirmed in
    let again = (unconfirmed_of evicted.1 (ids_of evicted.1 peer_id)) >>= λ left.
    trim_unconfirmed fuel evicted.1 peer_id left in
    if leb st.max_unconfirmed_per_peer (length unconfirmed)
    then (if evicted.0 then again else ok evicted.1)
    else ok st

-- `_evict_oldest_created(ids) or _evict_lru_confirmed(ids)`, as both later loops write it.
unfoldable pub evict_any : SessionStore → List Bytes → Bool × SessionStore
unfolding evict_oldest_created evict_lru_confirmed
evict_any st ids =
    let oldest = evict_oldest_created st ids in
    if oldest.0 then oldest else evict_lru_confirmed st ids

-- The second loop of `_enforce_peer_caps`.
unfoldable pub trim_peer : ℕ → SessionStore → Bytes → SessionStore
unfolding evict_any ids_of
trim_peer zero st peer_id = st
trim_peer (suc fuel) st peer_id =
    let evicted = evict_any st (ids_of st peer_id) in
    let again = trim_peer fuel evicted.1 peer_id in
    if leb st.max_sessions_per_peer (length (ids_of st peer_id))
    then (if evicted.0 then again else st)
    else st

unfoldable pub enforce_peer_caps : SessionStore → Bytes → Result SessionStore
unfolding unconfirmed_of trim_unconfirmed trim_peer ids_of
enforce_peer_caps st peer_id = do
  unconfirmed ← unconfirmed_of st (ids_of st peer_id)
  st' ← trim_unconfirmed (suc (length st.by_session_id)) st peer_id unconfirmed
  ok (trim_peer (suc (length st'.by_session_id)) st' peer_id)

unfoldable pub trim_global : ℕ → SessionStore → Result SessionStore
unfolding evict_any
trim_global zero st = ok st
trim_global (suc fuel) st =
    let evicted = evict_any st (Dict.keys st.by_session_id) in
    let again = trim_global fuel evicted.1 in
    if leb st.global_session_cap (length st.by_session_id)
    then (if evicted.0 then again else err session_store_error)
    else ok st

unfoldable pub enforce_global_cap : SessionStore → Result SessionStore
unfolding trim_global
enforce_global_cap st = trim_global (suc (length st.by_session_id)) st

-- now - session.created_at > lifetime, or idle for longer than the limit of its confirmation state
unfoldable pub is_expired : SessionStore → PeerSession → ℕ → Bool
is_expired st s now =
    if ltb (s.created_at + st.max_key_lifetime) now
    then true
    else ltb
        (s.last_activity
          + (if s.confirmed then st.idle_timeout_confirmed else st.idle_timeout_unconfirmed))
        now

unfoldable pub expired_ids : SessionStore → ℕ → Dict PeerSession → List Bytes
unfolding is_expired
expired_ids st now [] = []
expired_ids st now ((sid, s) ∷ d) =
    let rest = expired_ids st now d in if is_expired st s now then sid ∷ rest else rest

-- The store without its expired sessions, and how many they were.
unfoldable pub prune_expired : SessionStore → ℕ → SessionStore × ℕ
unfolding expired_ids remove_all
prune_expired st now =
    let expired = expired_ids st now st.by_session_id in (remove_all st expired, length expired)

unfoldable pub index_peer : SessionStore → Bytes → Bytes → SessionStore
unfolding ids_of
index_peer st peer_id session_id =
    let ids = ids_of st peer_id in
    record st {
      by_peer =
          Dict.insert peer_id (if mem session_id ids then ids else ids ++ session_id ∷ [])
            st.by_peer;
    }

-- The last two statements of `put`.
unfoldable pub record_session : SessionStore → PeerSession → SessionStore
unfolding index_peer
record_session st session =
    index_peer
      (record st { by_session_id = Dict.insert session.session_id session st.by_session_id })
      session.peer_id session.session_id

unfoldable pub put : SessionStore → ℕ → PeerSession → Result SessionStore
unfolding prune_expired enforce_peer_caps enforce_global_cap record_session
put st now session =
    if not (length session.session_id == session_id_size)
    then err session_store_error
    else if has (Dict.lookup session.session_id st.by_session_id)
    then err session_id_collision_error
    else (do
      st' ← enforce_peer_caps (prune_expired st now).0 session.peer_id
      st'' ← enforce_global_cap st'
      ok (record_session st'' session))

-- [self._by_session_id[sid] for sid in ids if sid in self._by_session_id]
unfoldable pub stored : SessionStore → List Bytes → List PeerSession
stored st [] = []
stored st (sid ∷ sids) =
    let rest = stored st sids in
    elim (Dict.lookup sid st.by_session_id) [ none ↦ rest | some s ↦ s ∷ rest ]

unfoldable pub sessions_for_peer : SessionStore → Bytes → List PeerSession
unfolding stored ids_of
sessions_for_peer st peer_id = stored st (ids_of st peer_id)

-- max(sessions, key=lambda s: s.last_activity): the first of the largest.
unfoldable pub most_recent : PeerSession → List PeerSession → PeerSession
most_recent best [] = best
most_recent best (s ∷ rest) =
    most_recent (if ltb best.last_activity s.last_activity then s else best) rest

abbrev pub most_recent? : List PeerSession → Option PeerSession
most_recent? [] = none
most_recent? (s ∷ rest) = some (most_recent s rest)

unfoldable pub get_active_session : SessionStore → Bytes → Option PeerSession
unfolding sessions_for_peer most_recent
get_active_session st peer_id = most_recent? (sessions_for_peer st peer_id)

unfoldable pub get_send_session : SessionStore → ℕ → Bytes → Option PeerSession
unfolding sessions_for_peer most_recent can_send
get_send_session st now peer_id =
    most_recent? (keep_if (λ s. can_send s now st.max_key_lifetime) (sessions_for_peer st peer_id))

unfoldable pub confirm : SessionStore → Bytes → SessionStore
confirm st session_id = elim (Dict.lookup session_id st.by_session_id) [
  | none ↦ st
  | some s ↦ record st {
    by_session_id = Dict.insert session_id (record s { confirmed = true }) st.by_session_id;
  }
]

unfoldable pub has_confirmed_session : SessionStore → Bytes → Bool
unfolding sessions_for_peer
has_confirmed_session st peer_id = any (λ s. s.confirmed) (sessions_for_peer st peer_id)

unfoldable pub remove_by_peer : SessionStore → Bytes → SessionStore × ℕ
unfolding remove_all ids_of
remove_by_peer st peer_id = let ids = ids_of st peer_id in (remove_all st ids, length ids)

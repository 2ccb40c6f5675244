-- ===== src/Store/Caps.antt =====
-- The loops of `SessionStore` (session_store.py) that keep the caps.
use secure_sync.Prelude.{
  ℕ, zero, suc, ◌<◌, ◌≡◌, refl, sym, subst, ◌∙◌, Bool, true, false, ◌&&◌, Option, none, some, List,
  [], ◌∷◌, arith, leb, inl, inr, ◌⊎◌, length, Bool-cases, Option-cases,
}
use secure_sync.Prelude.Bytes.{Bytes, beq_iff, beq_refl, mem}
use secure_sync.Errors.{Result, ok}
use secure_sync.Dict
use secure_sync.Dict.{Dict, has}
use secure_sync.Session.{PeerSession}
use secure_sync.Store.{
  SessionStore, evict_oldest_created, evict_lru_confirmed, evict_any, remove_session, ids_of,
  trim_peer, trim_global, trim_unconfirmed, unconfirmed_of, enforce_peer_caps,
}
use secure_sync.Store.Index.{Indexed}
use secure_sync.Store.Evict.{wanted, Evicts, evict-Evicts}
use secure_sync.Store.Pruned.{
  Pruned, Pruned-refl, Pruned-trans, remove_session-Pruned, length-remove_session,
}

-- `_evict_oldest_created` removes an unconfirmed candidate that was created first, and nothing if
-- no candidate is unconfirmed.
pub evict_oldest_created-Evicts :
    (st : SessionStore) (ids : List Bytes)
    → Evicts st false (λ s. s.created_at) ids (evict_oldest_created st ids)
unfolding evict_oldest_created
evict_oldest_created-Evicts st ids = evict-Evicts st false (λ s. s.created_at) ids

pub evict_lru_confirmed-Evicts :
    (st : SessionStore) (ids : List Bytes)
    → Evicts st true (λ s. s.last_activity) ids (evict_lru_confirmed st ids)
unfolding evict_lru_confirmed
evict_lru_confirmed-Evicts st ids = evict-Evicts st true (λ s. s.last_activity) ids

-- The eviction that both later loops try removes an unconfirmed candidate, or turns to the confirmed
-- ones, and then no candidate is unconfirmed.
pub evict_any_cases :
    (st : SessionStore) (ids : List Bytes)
    → ((sid : Bytes) × (evict_any st ids ≡ (true, remove_session st sid))
        × (mem sid ids ≡ true)
        × (wanted false (Dict.lookup sid st.by_session_id) ≡ true))
      ⊎ ((evict_any st ids ≡ evict_lru_confirmed st ids)
          × ((sid : Bytes)
              → mem sid ids ≡ true
              → wanted false (Dict.lookup sid st.by_session_id) ≡ false))
unfolding evict_any
evict_any_cases st ids = elim (evict_oldest_created-Evicts st ids) [
  | inl (e, no_victim) ↦ inr (ground (arith, e), no_victim)
  | inr (sid, e, m, w, _) ↦ inl (sid, ground (arith, e), m, w)
]

wanted-has : (b : Bool) (o : Option PeerSession) → wanted b o ≡ true → has o ≡ true
wanted-has b none w = cc
wanted-has b (some s) w = refl

stored_has_state :
    (o : Option PeerSession) → has o ≡ true → wanted false o ≡ false → wanted true o ≡ false → ⊥
stored_has_state none h f t = cc
stored_has_state (some s) h f t = ground arith

-- Some stored candidate is evicted if there is any.
pub evict_any_shrinks :
    (st : SessionStore) (ids : List Bytes) (x : Bytes)
    → mem x ids ≡ true
    → has (Dict.lookup x st.by_session_id) ≡ true
    → (sid : Bytes) × (evict_any st ids ≡ (true, remove_session st sid))
      × (has (Dict.lookup sid st.by_session_id) ≡ true)
evict_any_shrinks st ids x m h = elim (evict_any_cases st ids) [
  | inl (sid, e, _, w) ↦ (sid, e, wanted-has false _ w)
  | inr (e, none_open) ↦ elim (evict_lru_confirmed-Evicts st ids) [
    | inl (_, no_victim) ↦ absurd (stored_has_state _ h (none_open x m) (no_victim x m))
    | inr (sid, e', _, w, _) ↦ (sid, e ∙ e', wanted-has true _ w)
  ]
]

-- One round of the two loops that call `evict_any`: with a stored candidate, the store gets smaller.
abbrev Shrunk : SessionStore → Bool × SessionStore → Type 0
Shrunk st r = (r.0 ≡ true) × Pruned st r.1 × (length r.1.by_session_id < length st.by_session_id)

evict_any-Shrunk :
    (st : SessionStore) (ids : List Bytes) (x : Bytes)
    → mem x ids ≡ true
    → has (Dict.lookup x st.by_session_id) ≡ true
    → Shrunk st (evict_any st ids)
evict_any-Shrunk st ids x m h =
    let (sid, e, stored) = evict_any_shrinks st ids x m h in
    subst (Shrunk st) (sym e)
      (refl, remove_session-Pruned st sid, length-remove_session st sid stored)

oldest-Shrunk :
    (st : SessionStore) (ids : List Bytes) (x : Bytes)
    → mem x ids ≡ true
    → wanted false (Dict.lookup x st.by_session_id) ≡ true
    → Shrunk st (evict_oldest_created st ids)
oldest-Shrunk st ids x m w = elim (evict_oldest_created-Evicts st ids) [
  | inl (_, no_victim) ↦ cc (w, no_victim x m)
  | inr (sid, e, _, w', _) ↦
      let stored = wanted-has false _ w' in
      subst (Shrunk st) (sym e)
        (refl, remove_session-Pruned st sid, length-remove_session st sid stored)
]

listed-has :
    (st : SessionStore) (peer_id sid : Bytes)
    → Indexed st
    → mem sid (ids_of st peer_id) ≡ true
    → has (Dict.lookup sid st.by_session_id) ≡ true
listed-has st peer_id sid v m = ground (arith, v.listed sid peer_id)

-- A list that is not empty has a member.
some_member : (ids : List Bytes) → 0 < length ids → (x : Bytes) × (mem x ids ≡ true)
some_member [] h = absurd (omega arith)
some_member (x ∷ ids) h = (x, ground (arith, beq_refl x))

-- The second loop of `_enforce_peer_caps` leaves the peer room for one more session.
pub trim_peer_lem :
    (fuel : ℕ) (st : SessionStore) (peer_id : Bytes)
    → Indexed st
    → length st.by_session_id < fuel
    → 0 < st.max_sessions_per_peer
    → Pruned st (trim_peer fuel st peer_id)
      × (length (ids_of (trim_peer fuel st peer_id) peer_id) < st.max_sessions_per_peer)
unfolding trim_peer
trim_peer_lem zero st peer_id v lt pos = absurd (omega arith)
trim_peer_lem (suc fuel) st peer_id v lt pos =
    elim (Bool-cases (leb st.max_sessions_per_peer (length (ids_of st peer_id)))) [
      | inr room ↦ rw room (Pruned-refl st, ground arith)
      | inl full ↦
          let (x, m) = some_member (ids_of st peer_id) (ground arith) in
          let (done, p, less) =
            evict_any-Shrunk st (ids_of st peer_id) x m (listed-has st peer_id x v m) in
          let st' = (evict_any st (ids_of st peer_id)).1 in
          let (q, room) =
            trim_peer_lem fuel st' peer_id (p.indexed v) (omega arith) (rw p.policy_eq pos) in
          rw (full, done) (Pruned-trans p q, rw p.policy_eq at room)
    ]

keys_positive : (d : Dict PeerSession) → 0 < length d → 0 < length (Dict.keys d)
unfolding Dict.keys
keys_positive [] h = absurd (omega arith)
keys_positive (e ∷ d) h = omega arith

-- The global loop never reaches its `raise` while the cap is positive, and leaves room for one session.
pub trim_global_lem :
    (fuel : ℕ) (st : SessionStore)
    → length st.by_session_id < fuel
    → 0 < st.global_session_cap
    → (st' : SessionStore) × (trim_global fuel st ≡ ok st')
      × Pruned st st'
      × (length st'.by_session_id < st.global_session_cap)
unfolding trim_global
trim_global_lem zero st lt pos = absurd (omega arith)
trim_global_lem (suc fuel) st lt pos =
    elim (Bool-cases (leb st.global_session_cap (length st.by_session_id))) [
      | inr room ↦ (st, rw room, Pruned-refl st, ground arith)
      | inl full ↦
          let ids = Dict.keys st.by_session_id in
          let (x, m) = some_member ids (keys_positive st.by_session_id (ground arith)) in
          let (done, p, less) = evict_any-Shrunk st ids x m (Dict.has-keys x st.by_session_id m) in
          let st1 = (evict_any st ids).1 in
          let (st', e, q, room) = trim_global_lem fuel st1 (omega arith) (rw p.policy_eq pos) in
          (st', rw (full, done) e, Pruned-trans p q, rw p.policy_eq at room)
    ]

-- The list of a peer's unconfirmed sessions exists if every identifier is known, and holds those.
pub record IsListing (st : SessionStore) (ids us : List Bytes) : Type 0 where
  pub listing : unconfirmed_of st ids ≡ ok us
  pub members :
      (sid : Bytes) → mem sid us ≡ (mem sid ids && wanted false (Dict.lookup sid st.by_session_id))

pub unconfirmed_of-IsListing :
    (st : SessionStore) (ids : List Bytes)
    → ((sid : Bytes) → mem sid ids ≡ true → has (Dict.lookup sid st.by_session_id) ≡ true)
    → (us : List Bytes) × IsListing st ids us
unfolding unconfirmed_of
unconfirmed_of-IsListing st [] known = ([], record { listing = refl; members = λ sid. refl })
unconfirmed_of-IsListing st (x ∷ ids) known =
    let (us, u) = unconfirmed_of-IsListing st ids (λ sid m. known sid (ground (arith, m))) in
    elim (Option-cases (Dict.lookup x st.by_session_id)) [
      | inl e ↦ cc (e, known x (ground (arith, beq_refl x)))
      | inr (s, e) ↦ elim (Bool-cases s.confirmed) [
        | inl c ↦ (
          us,
          record {
            listing = ground (arith, u.listing);
            members = λ sid. ground (arith, u.members sid, beq_iff sid x);
          },
        )
        | inr c ↦ (
          x ∷ us,
          record {
            listing = ground (arith, u.listing);
            members = λ sid. ground (arith, u.members sid, beq_iff sid x);
          },
        )
      ]
    ]

-- The result of the first loop: room for one more unconfirmed session of the peer.
abbrev pub HasRoomUnconfirmed : SessionStore → Bytes → Result SessionStore → Type 0
HasRoomUnconfirmed st peer_id r =
    (st' : SessionStore) × (us' : List Bytes) × (r ≡ ok st')
    × Pruned st st'
    × IsListing st' (ids_of st' peer_id) us'
    × (length us' < st.max_unconfirmed_per_peer)

HasRoomUnconfirmed-Pruned :
    (st st1 : SessionStore) (peer_id : Bytes) (r : Result SessionStore)
    → Pruned st st1
    → HasRoomUnconfirmed st1 peer_id r
    → HasRoomUnconfirmed st peer_id r
HasRoomUnconfirmed-Pruned st st1 peer_id r p (st', us', e, q, u, room) = (
  st',
  us',
  e,
  Pruned-trans p q,
  u,
  subst (λ pol. length us' < pol.max_unconfirmed_per_peer) p.policy_eq room,
)

-- The first loop of `_enforce_peer_caps` leaves the peer room for one more unconfirmed session.
pub trim_unconfirmed_lem :
    (fuel : ℕ) (st : SessionStore) (peer_id : Bytes) (us : List Bytes)
    → Indexed st
    → IsListing st (ids_of st peer_id) us
    → length st.by_session_id < fuel
    → 0 < st.max_unconfirmed_per_peer
    → HasRoomUnconfirmed st peer_id (trim_unconfirmed fuel st peer_id us)
unfolding trim_unconfirmed
trim_unconfirmed_lem zero st peer_id us v u lt pos = absurd (omega arith)
trim_unconfirmed_lem (suc fuel) st peer_id us v u lt pos =
    elim (Bool-cases (leb st.max_unconfirmed_per_peer (length us))) [
      | inr room ↦ rw room (st, us, refl, Pruned-refl st, u, ground arith)
      | inl full ↦
          let (x, m) = some_member us (ground arith) in
          let (done, p, less) = oldest-Shrunk st us x m (ground (arith, u.members x)) in
          let st1 = (evict_oldest_created st us).1 in
          let v1 = p.indexed v in
          let (us1, u1) =
            unconfirmed_of-IsListing st1 (ids_of st1 peer_id)
              (λ sid. listed-has st1 peer_id sid v1) in
          rw (full, done, u1.listing)
            (HasRoomUnconfirmed-Pruned st st1 peer_id _ p
              (trim_unconfirmed_lem fuel st1 peer_id us1 v1 u1 (omega arith) (rw p.policy_eq pos)))
    ]

-- The result of `_enforce_peer_caps`: room for one more session of the peer.
abbrev pub HasRoom : SessionStore → Bytes → Result SessionStore → Type 0
HasRoom st peer_id r =
    (st' : SessionStore) × (r ≡ ok st')
    × Pruned st st'
    × (length (ids_of st' peer_id) < st.max_sessions_per_peer)

after_unconfirmed :
    (st st1 : SessionStore) (peer_id : Bytes) (us : List Bytes)
    → Indexed st
    → 0 < st.max_sessions_per_peer
    → unconfirmed_of st (ids_of st peer_id) ≡ ok us
    → trim_unconfirmed (suc (length st.by_session_id)) st peer_id us ≡ ok st1
    → Pruned st st1
    → HasRoom st peer_id (enforce_peer_caps st peer_id)
unfolding enforce_peer_caps
after_unconfirmed st st1 peer_id us v pos listing e p =
    let fuel = suc (length st1.by_session_id) in
    let st' = trim_peer fuel st1 peer_id in
    let (q, room) =
      trim_peer_lem fuel st1 peer_id (p.indexed v) (omega arith) (rw p.policy_eq pos) in
    let room' =
      subst (λ pol. length (ids_of st' peer_id) < pol.max_sessions_per_peer) p.policy_eq room in
    (st', rw (listing, e), Pruned-trans {a = st} {b = st1} {c = st'} p q, room')

-- `_enforce_peer_caps` succeeds on every indexed store.
pub enforce_peer_caps_lem :
    (st : SessionStore) (peer_id : Bytes)
    → Indexed st
    → 0 < st.max_unconfirmed_per_peer
    → 0 < st.max_sessions_per_peer
    → HasRoom st peer_id (enforce_peer_caps st peer_id)
enforce_peer_caps_lem st peer_id v pos_u pos_s =
    let (us, u) =
      unconfirmed_of-IsListing st (ids_of st peer_id) (λ sid. listed-has st peer_id sid v) in
    let (st1, us1, e, p, _, _) =
      trim_unconfirmed_lem (suc (length st.by_session_id)) st peer_id us v u (omega arith) pos_u in
    after_unconfirmed st st1 peer_id us v pos_s u.listing e p

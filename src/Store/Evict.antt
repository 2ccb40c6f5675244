-- ===== src/Store/Evict.antt =====
-- The loops of `SessionStore` (session_store.py) that choose a session to evict.
use secure_sync.Prelude.{
  ℕ, ◌≤◌, ◌≡◌, refl, sym, ◌∙◌, Bool, true, false, not, Option, none, some, List, [], ◌∷◌, arith,
  inl, inr, ◌⊎◌, Bool-cases,
}
use secure_sync.Prelude.Bytes.{Bytes, beq, beq_iff, beq_refl, mem}
use secure_sync.Dict
use secure_sync.Dict.{Dict, has, length-remove-lt}
use secure_sync.Session.{PeerSession}
use secure_sync.Store.{SessionStore, consider, find_victim, evict, remove_session}

-- A session is there, and its confirmation state is the wanted one.
abbrev pub wanted : Bool → Option PeerSession → Bool
wanted want none = false
wanted true (some s) = s.confirmed
wanted false (some s) = not s.confirmed

abbrev pub key_or_zero : (PeerSession → ℕ) → Option PeerSession → ℕ
key_or_zero key none = 0
key_or_zero key (some s) = key s

consider_cases :
    (want : Bool) (key : PeerSession → ℕ) (best : Option (Bytes × ℕ)) (sid : Bytes)
    (o : Option PeerSession)
    → (consider want key best sid o ≡ best)
      ⊎ ((consider want key best sid o ≡ some (sid, key_or_zero key o)) × (wanted want o ≡ true))
consider_cases want key best sid none = inl refl
consider_cases true key none sid (some s) = grind arith
consider_cases true key (some b) sid (some s) = grind arith
consider_cases false key none sid (some s) = grind arith
consider_cases false key (some b) sid (some s) = grind arith

-- The key of a chosen session is at most the bound.
abbrev pub AtMost : Option (Bytes × ℕ) → ℕ → Type 0
AtMost none bound = ⊥
AtMost (some (sid, k)) bound = k ≤ bound

consider_bound :
    (want : Bool) (key : PeerSession → ℕ) (best : Option (Bytes × ℕ)) (sid : Bytes)
    (o : Option PeerSession)
    → wanted want o ≡ true
    → AtMost (consider want key best sid o) (key_or_zero key o)
consider_bound want key best sid none h = cc
consider_bound true key none sid (some s) h = ground arith
consider_bound true key (some b) sid (some s) h = ground arith
consider_bound false key none sid (some s) h = ground arith
consider_bound false key (some b) sid (some s) h = ground arith

consider_mono :
    (want : Bool) (key : PeerSession → ℕ) (best : Option (Bytes × ℕ)) (sid : Bytes)
    (o : Option PeerSession) (bound : ℕ)
    → AtMost best bound
    → AtMost (consider want key best sid o) bound
consider_mono want key none sid o bound h = elim h [ ]
consider_mono want key (some b) sid none bound h = h
consider_mono true key (some b) sid (some s) bound h = ground arith
consider_mono false key (some b) sid (some s) bound h = ground arith

module _ (st : SessionStore) (want : Bool) (key : PeerSession → ℕ) where
  abbrev at : Bytes → Option PeerSession
  at sid = Dict.lookup sid st.by_session_id

  -- A choice names a session of the wanted state, among the candidates.
  abbrev Chosen : List Bytes → Option (Bytes × ℕ) → Option (Bytes × ℕ) → Type 0
  Chosen sids best none = Unit {0}
  Chosen sids best (some (sid, k)) =
      (best ≡ some (sid, k))
      ⊎ ((mem sid sids ≡ true) × (wanted want (at sid) ≡ true) × (key_or_zero key (at sid) ≡ k))

  Chosen-weaken :
      (sid : Bytes) (sids : List Bytes) (best r : Option (Bytes × ℕ))
      → Chosen sids (consider want key best sid (at sid)) r
      → Chosen (sid ∷ sids) best r
  Chosen-weaken sid sids best none h = tt
  Chosen-weaken sid sids best (some (x, k)) (inr (m, w, e)) = inr (ground arith, w, e)
  Chosen-weaken sid sids best (some (x, k)) (inl e) =
      elim (consider_cases want key best sid (at sid)) [
        | inl kept ↦ inl (sym kept ∙ e)
        | inr (new, w) ↦
            let same : ◌≡◌ {A = Option (Bytes × ℕ)} (some (sid, key_or_zero key (at sid)))
                (some (x, k)) =
              sym new ∙ e in
            let xs : sid ≡ x = cc same in
            inr (ground (arith, beq_refl x), rw (← xs) w, rw (← xs) (cc same))
      ]

  find_victim-Chosen :
      (best : Option (Bytes × ℕ)) (sids : List Bytes)
      → Chosen sids best (find_victim st want key best sids)
  unfolding find_victim
  find_victim-Chosen none [] = tt
  find_victim-Chosen (some b) [] = inl refl
  find_victim-Chosen best (sid ∷ sids) =
      Chosen-weaken sid sids best _ (find_victim-Chosen (consider want key best sid (at sid)) sids)

  find_victim_mono :
      (best : Option (Bytes × ℕ)) (sids : List Bytes) (bound : ℕ)
      → AtMost best bound
      → AtMost (find_victim st want key best sids) bound
  unfolding find_victim
  find_victim_mono best [] bound h = h
  find_victim_mono best (sid ∷ sids) bound h =
      find_victim_mono (consider want key best sid (at sid)) sids bound
        (consider_mono want key best sid (at sid) bound h)

  -- Every candidate of the wanted state has a key at least as large as the chosen one.
  find_victim_bound :
      (best : Option (Bytes × ℕ)) (sids : List Bytes) (sid : Bytes)
      → mem sid sids ≡ true
      → wanted want (at sid) ≡ true
      → AtMost (find_victim st want key best sids) (key_or_zero key (at sid))
  unfolding find_victim
  find_victim_bound best [] sid m w = cc
  find_victim_bound best (x ∷ sids) sid m w = elim (Bool-cases (beq sid x)) [
    | inl e ↦
        let same : sid ≡ x = (beq_iff sid x).0 e in
        find_victim_mono (consider want key best x (at x)) sids _
          (rw same (consider_bound want key best x (at x) (rw (← same) w)))
    | inr e ↦ find_victim_bound (consider want key best x (at x)) sids sid (ground arith) w
  ]

  -- An eviction among `sids` either finds no session of the wanted state and leaves the store alone,
  -- or removes one whose key no other one's undercuts.
  abbrev pub Evicts : List Bytes → Bool × SessionStore → Type 0
  Evicts sids r =
      ((r ≡ (false, st)) × ((sid : Bytes) → mem sid sids ≡ true → wanted want (at sid) ≡ false))
      ⊎ ((sid : Bytes) × (r ≡ (true, remove_session st sid))
          × (mem sid sids ≡ true)
          × (wanted want (at sid) ≡ true)
          × ((other : Bytes)
              → mem other sids ≡ true
              → wanted want (at other) ≡ true
              → key_or_zero key (at sid) ≤ key_or_zero key (at other)))

  pub evict-Evicts :
      (sids : List Bytes) → Evicts sids (evict st (find_victim st want key none sids))
  unfolding evict
  evict-Evicts sids =
      go (find_victim st want key none sids) (find_victim-Chosen none sids)
        (λ sid. find_victim_bound none sids sid)
    where
      go :
          (r : Option (Bytes × ℕ))
          → Chosen sids none r
          → ((sid : Bytes)
              → mem sid sids ≡ true
              → wanted want (at sid) ≡ true
              → AtMost r (key_or_zero key (at sid)))
          → Evicts sids (evict st r)
      go none c b = inl (
        refl,
        λ sid m. elim (Bool-cases (wanted want (at sid))) [
          | inl w ↦ absurd (b sid m w)
          | inr w ↦ w
        ],
      )
      go (some (sid, k)) (inl e) b = cc
      go (some (sid, k)) (inr (m, w, e)) b =
          inr (sid, refl, m, w, λ other om ow. rw e (b other om ow))

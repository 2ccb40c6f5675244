-- ===== src/Versions/Order.antt =====
-- The causal order of `VersionVector` in the file conflict.py.
use secure_sync.Prelude.{
  ℕ, ◌+◌, ◌≤◌, ◌<◌, ◌≡◌, ◌↔◌, ◌⊎◌, refl, ap, sym, ◌∙◌, subst, max, true, false, ◌&&◌, none, some,
  [], ◌∷◌, if◌then◌else◌, arith, inl, inr, Bool-cases,
}
use secure_sync.Prelude.Bytes.{Bytes, beq, beq_iff, beq_refl}
use secure_sync.Dict
use secure_sync.Dict.{Dict, lookup-insert, IsDict, insert-IsDict}
use secure_sync.Versions.{
  VersionVector, counter_of, increment, merge_counters, merge, le_counters, le, includes,
  same_counters, lt,
}

-- The number of times that a vector has seen a device change the file.
abbrev pub seen : VersionVector → Bytes → ℕ
seen v k = counter_of v.counters k

counter_of-insert :
    (d : Dict ℕ) (k j : Bytes) (n : ℕ)
    → counter_of (Dict.insert k n d) j ≡ (if beq k j then n else counter_of d j)
unfolding counter_of
counter_of-insert d k j n = ground (arith, lookup-insert k j n d)

le_counters-counter_of :
    (d e : Dict ℕ) (k : Bytes) → le_counters d e ≡ true → counter_of d k ≤ counter_of e k
unfolding le_counters counter_of Dict.lookup
le_counters-counter_of [] e k h = omega arith
le_counters-counter_of ((j, n) ∷ d) e k h =
    ground (arith, le_counters-counter_of d e k, beq_iff j k)

counter_of-cons :
    (j k : Bytes) (n : ℕ) (d : Dict ℕ)
    → counter_of ((j, n) ∷ d) k ≡ (if beq j k then n else counter_of d k)
unfolding counter_of Dict.lookup
counter_of-cons j k n d = ground arith

tail_le :
    (d e : Dict ℕ) (j : Bytes) (n : ℕ)
    → Dict.lookup j d ≡ none
    → ((k : Bytes) → counter_of ((j, n) ∷ d) k ≤ counter_of e k)
    → (k : Bytes) → counter_of d k ≤ counter_of e k
unfolding counter_of
tail_le d e j n u h k = ground (arith, u, h k, counter_of-cons j k n d, beq_iff j k)

counter_of-le_counters :
    (d e : Dict ℕ)
    → IsDict d
    → ((k : Bytes) → counter_of d k ≤ counter_of e k)
    → le_counters d e ≡ true
unfolding le_counters
counter_of-le_counters [] e u h = refl
counter_of-le_counters ((j, n) ∷ d) e u h = ground (
  arith,
  h j,
  counter_of-cons j j n d,
  beq_refl j,
  counter_of-le_counters d e u.1 (tail_le d e j n u.0 h),
)

-- `v <= w` decides that w has seen at least what v has seen, of each device, if no counter of v stands
-- twice.
pub le_iff :
    (v w : VersionVector)
    → IsDict v.counters
    → (le v w ≡ true) ↔ ((k : Bytes) → seen v k ≤ seen w k)
unfolding le
le_iff v w u = (
  λ h k. le_counters-counter_of v.counters w.counters k h,
  counter_of-le_counters v.counters w.counters u,
)

counter_of-nil : (k : Bytes) → counter_of [] k ≡ 0
unfolding counter_of Dict.lookup
counter_of-nil k = refl

counter_of-absent : (d : Dict ℕ) (k : Bytes) → Dict.lookup k d ≡ none → counter_of d k ≡ 0
unfolding counter_of
counter_of-absent d k u = ground arith

merge_counters-counter_of :
    (d e : Dict ℕ) (k : Bytes)
    → IsDict e
    → counter_of (merge_counters d e) k ≡ max (counter_of d k) (counter_of e k)
unfolding merge_counters
merge_counters-counter_of d [] k u = omega (arith, counter_of-nil k)
merge_counters-counter_of d ((j, n) ∷ e) k u = ground (
  arith,
  merge_counters-counter_of (Dict.insert j (max (counter_of d j) n) d) e k u.1,
  counter_of-insert d j k (max (counter_of d j) n),
  counter_of-cons j k n e,
  counter_of-absent e j u.0,
  beq_iff j k,
)

-- A merged vector has seen, of each device, the larger of what the two have seen.
pub seen-merge :
    (v w : VersionVector) (k : Bytes)
    → IsDict w.counters
    → seen (merge v w) k ≡ max (seen v k) (seen w k)
unfolding merge
seen-merge v w k u = merge_counters-counter_of v.counters w.counters k u

-- An increment adds one for its device and nothing for another.
pub seen-increment :
    (v : VersionVector) (j k : Bytes)
    → seen (increment v j) k ≡ seen v k + (if beq j k then 1 else 0)
unfolding increment
seen-increment v j k =
    ground (arith, counter_of-insert v.counters j k (counter_of v.counters j + 1), beq_iff j k)

includes-le_counters : (d e : Dict ℕ) → includes d e ≡ true → le_counters d e ≡ true
unfolding includes le_counters counter_of
includes-le_counters [] e h = refl
includes-le_counters ((k, n) ∷ d) e h = ground (arith, includes-le_counters d e)

increment-IsDict :
    (v : VersionVector) (k : Bytes) → IsDict v.counters → IsDict (increment v k).counters
unfolding increment
increment-IsDict v k u = insert-IsDict k (counter_of v.counters k + 1) v.counters u

merge_counters-IsDict : (d e : Dict ℕ) → IsDict d → IsDict (merge_counters d e)
unfolding merge_counters
merge_counters-IsDict d [] u = u
merge_counters-IsDict d ((k, n) ∷ e) u =
    merge_counters-IsDict (Dict.insert k (max (counter_of d k) n) d) e
      (insert-IsDict k (max (counter_of d k) n) d u)

seen-increment_own : (v : VersionVector) (k : Bytes) → seen (increment v k) k ≡ seen v k + 1
seen-increment_own v k = ground (arith, seen-increment v k k, beq_refl k)

merge-IsDict : (v w : VersionVector) → IsDict v.counters → IsDict (merge v w).counters
unfolding merge
merge-IsDict v w u = merge_counters-IsDict v.counters w.counters u

not_le-increment :
    (v : VersionVector) (k : Bytes) → le_counters (increment v k).counters v.counters ≡ false
not_le-increment v k = elim (Bool-cases (le_counters (increment v k).counters v.counters)) [
  | inl e ↦ absurd (
      omega (
        arith,
        le_counters-counter_of (increment v k).counters v.counters k e,
        seen-increment_own v k,
      ))
  | inr e ↦ e
]

-- A device's own change makes a strictly newer version, of a version in which no counter stands twice.
pub lt-increment : (v : VersionVector) (k : Bytes) → IsDict v.counters → lt v (increment v k) ≡ true
unfolding lt same_counters
lt-increment v k u = ground (
  arith,
  (le_iff v (increment v k) u).1 (λ j. omega (arith, seen-increment v k j)),
  not_le-increment v k,
  includes-le_counters (increment v k).counters v.counters,
)

-- The merge of two versions is their least upper bound: a version is at or after the merge exactly when
-- it is at or after both. No counter stands twice in either.
pub le-merge :
    (v w x : VersionVector)
    → IsDict v.counters
    → IsDict w.counters
    → (le (merge v w) x ≡ true) ↔ ((le v x ≡ true) × (le w x ≡ true))
le-merge v w x u u' = (
  λ h. (
    (le_iff v x u).1 (λ k. omega (arith, (le_iff (merge v w) x m).0 h k, seen-merge v w k u')),
    (le_iff w x u').1 (λ k. omega (arith, (le_iff (merge v w) x m).0 h k, seen-merge v w k u')),
  ),
  λ h.
      (le_iff (merge v w) x m).1
        (λ k. omega (arith, (le_iff v x u).0 h.0 k, (le_iff w x u').0 h.1 k, seen-merge v w k u')),
)
  where
    m : IsDict (merge v w).counters
    m = merge-IsDict v w u

-- No counter is zero, which `increment` and `merge` keep.
abbrev pub IsPositive : Dict ℕ → Type 0
IsPositive [] = Unit
IsPositive ((k, n) ∷ d) = (0 < n) × IsPositive d

counter_of-other :
    (j k : Bytes) (n : ℕ) (d : Dict ℕ)
    → beq j k ≡ false
    → counter_of ((j, n) ∷ d) k ≡ counter_of d k
counter_of-other j k n d q = ground (arith, counter_of-cons j k n d)

lookup-positive :
    (e : Dict ℕ) (j : Bytes) (n : ℕ) → 0 < n → n ≡ counter_of e j → Dict.lookup j e ≡ some n
unfolding counter_of
lookup-positive e j n p q = ground arith

own_counter :
    (d e : Dict ℕ) (j : Bytes) (n : ℕ)
    → 0 < n
    → (counter_of ((j, n) ∷ d) j ≡ 0) ⊎ (counter_of ((j, n) ∷ d) j ≡ counter_of e j)
    → n ≡ counter_of e j
own_counter d e j n p h = ground (arith, counter_of-cons j j n d, beq_refl j)

agree_tail :
    (d e : Dict ℕ) (j : Bytes) (n : ℕ)
    → Dict.lookup j d ≡ none
    → ((k : Bytes) → (counter_of ((j, n) ∷ d) k ≡ 0) ⊎ (counter_of ((j, n) ∷ d) k ≡ counter_of e k))
    → (k : Bytes) → (counter_of d k ≡ 0) ⊎ (counter_of d k ≡ counter_of e k)
agree_tail d e j n u h k = elim (Bool-cases (beq j k)) [
  | inl q ↦ inl (ap (counter_of d) (sym ((beq_iff j k).0 q)) ∙ counter_of-absent d j u)
  | inr q ↦ subst (λ c. (c ≡ 0) ⊎ (c ≡ counter_of e k)) (counter_of-other j k n d q) (h k)
]

agree-includes :
    (d e : Dict ℕ)
    → IsDict d
    → IsPositive d
    → ((k : Bytes) → (counter_of d k ≡ 0) ⊎ (counter_of d k ≡ counter_of e k))
    → includes d e ≡ true
unfolding includes
agree-includes [] e u p h = refl
agree-includes ((j, n) ∷ d) e u p h = ground (
  arith,
  lookup-positive e j n p.0 (own_counter d e j n p.0 (h j)),
  agree-includes d e u.1 p.1 (agree_tail d e j n u.0 h),
)

-- With no zero counter, two versions that are each at or before the other are equal, so neither is
-- strictly newer than the other and than itself at once.
pub lt_asymmetric :
    (v w : VersionVector)
    → IsDict v.counters
    → IsDict w.counters
    → IsPositive v.counters
    → IsPositive w.counters
    → (lt v w && lt w v) ≡ false
unfolding lt same_counters
lt_asymmetric v w u u' p p' = elim (Bool-cases (le v w && le w v)) [
  | inl h ↦
      let both : (k : Bytes) → seen v k ≡ seen w k = λ k.
        omega (
          arith,
          (le_iff v w u).0 (ground (arith, h)) k,
          (le_iff w v u').0 (ground (arith, h)) k,
        ) in
      ground (
        arith,
        agree-includes v.counters w.counters u p (λ k. inr (both k)),
        agree-includes w.counters v.counters u' p' (λ k. inr (sym (both k))),
      )
  | inr h ↦ ground arith
]

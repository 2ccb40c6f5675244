-- ===== src/Dict.antt =====
-- Python's `dict` keyed by byte strings (or by texts, taken as their UTF-8 bytes), in insertion order:
-- a new key goes to the end, a known key keeps its place.
use secure_sync.Prelude.{
  suc, ◌≤◌, ◌<◌, ◌≡◌, refl, Bool, true, false, Option, none, some, List, [], ◌∷◌, arith,
  if◌then◌else◌, length, Bool-cases, inl, inr,
}
use secure_sync.Prelude.Bytes.{Bytes, beq, beq_iff, mem}

abbrev pub Dict {ℓ} : Type ℓ → Type ℓ
Dict V = List (Bytes × V)

module _ {ℓ} {V : Type ℓ} where
  -- d.get(k)
  unfoldable pub lookup : Bytes → Dict V → Option V
  lookup k [] = none
  lookup k ((j, v) ∷ d) = if beq j k then some v else lookup k d

  -- d[k] = v
  unfoldable pub insert : Bytes → V → Dict V → Dict V
  insert k v [] = (k, v) ∷ []
  insert k v ((j, w) ∷ d) = if beq j k then (j, v) ∷ d else (j, w) ∷ insert k v d

  -- d.pop(k, None)
  unfoldable pub remove : Bytes → Dict V → Dict V
  remove k [] = []
  remove k ((j, v) ∷ d) = let rest = remove k d in if beq j k then rest else (j, v) ∷ rest

  unfoldable pub keys : Dict V → List Bytes
  keys [] = []
  keys ((k, v) ∷ d) = k ∷ keys d

  abbrev pub has : Option V → Bool
  has none = false
  has (some v) = true

  pub lookup-insert :
      (k j : Bytes) (v : V) (d : Dict V)
      → lookup j (insert k v d) ≡ (if beq k j then some v else lookup j d)
  unfolding lookup insert
  lookup-insert k j v [] = refl
  lookup-insert k j v ((i, w) ∷ d) =
      ground (arith, beq_iff k j, beq_iff i k, beq_iff i j, lookup-insert k j v d)

  pub lookup-remove :
      (k j : Bytes) (d : Dict V) → lookup j (remove k d) ≡ (if beq k j then none else lookup j d)
  unfolding lookup remove
  lookup-remove k j [] = ground arith
  lookup-remove k j ((i, v) ∷ d) =
      ground (arith, beq_iff k j, beq_iff i k, beq_iff i j, lookup-remove k j d)

  pub length-remove-le : (k : Bytes) (d : Dict V) → length (remove k d) ≤ length d
  unfolding remove
  length-remove-le k [] = omega arith
  length-remove-le k ((i, v) ∷ d) = ground (arith, length-remove-le k d)

  -- Removing a key that is there makes the dictionary shorter.
  pub length-remove-lt :
      (k : Bytes) (d : Dict V) → has (lookup k d) ≡ true → length (remove k d) < length d
  unfolding lookup remove
  length-remove-lt k [] h = cc
  length-remove-lt k ((i, v) ∷ d) h = ground (arith, length-remove-le k d, length-remove-lt k d)

  pub length-insert-le : (k : Bytes) (v : V) (d : Dict V) → length (insert k v d) ≤ suc (length d)
  unfolding insert
  length-insert-le k v [] = omega arith
  length-insert-le k v ((i, w) ∷ d) = ground (arith, length-insert-le k v d)

  pub has-keys : (k : Bytes) (d : Dict V) → mem k (keys d) ≡ true → has (lookup k d) ≡ true
  unfolding lookup keys
  has-keys k [] h = cc
  has-keys k ((j, v) ∷ d) h = ground (arith, has-keys k d, beq_iff k j, beq_iff j k)

  -- No key stands twice.
  abbrev pub IsDict : Dict V → Type ℓ
  IsDict [] = Unit
  IsDict ((k, v) ∷ d) = (lookup k d ≡ none) × IsDict d

  pub remove-IsDict : (k : Bytes) (d : Dict V) → IsDict d → IsDict (remove k d)
  unfolding remove
  remove-IsDict k [] h = tt
  remove-IsDict k ((j, v) ∷ d) h = elim (Bool-cases (beq j k)) [
    | inl e ↦ rw e (remove-IsDict k d h.1)
    | inr e ↦ rw e (ground (arith, lookup-remove k j d, h.0), remove-IsDict k d h.1)
  ]

  pub insert-IsDict : (k : Bytes) (v : V) (d : Dict V) → IsDict d → IsDict (insert k v d)
  unfolding insert lookup
  insert-IsDict k v [] h = (refl, tt)
  insert-IsDict k v ((j, w) ∷ d) h = elim (Bool-cases (beq j k)) [
    | inl e ↦ rw e h
    | inr e ↦ rw e (
      ground (arith, lookup-insert k j v d, h.0, beq_iff j k, beq_iff k j),
      insert-IsDict k v d h.1,
    )
  ]

-- ===== src/Conflict/Lifecycle.antt =====
-- The conflicts that are active in the repository before and after a use case.
use secure_sync.Prelude.{
  ℕ, ◌≡◌, refl, sym, ap, ◌∙◌, Bool, true, false, not, ◌&&◌, ◌||◌, some, List, [], ◌∷◌, arith,
  Bool-cases, inl, inr,
}
use secure_sync.Prelude.Bytes.{Bytes, mem, beq, beq_iff, beq_refl}
use secure_sync.Errors.{ok}
use secure_sync.Dict
use secure_sync.Dict.{Dict, lookup-insert}
use secure_sync.Versions.{VersionVector, is_concurrent}
use secure_sync.Conflict.{
  ConflictMetadata, ConflictRepository, concurrent_modification, values, unresolved, list_active,
  add, save, get_by_id, resolve, detect, resolve_conflict,
}

abbrev pub ids : List ConflictMetadata → List Bytes
ids [] = []
ids (conflict ∷ conflicts) = conflict.conflict_id ∷ ids conflicts

-- Every conflict stands under its identifier.
abbrev pub IsKeyed : Dict ConflictMetadata → Type 0
IsKeyed [] = Unit {0}
IsKeyed ((key, conflict) ∷ conflicts) = (conflict.conflict_id ≡ key) × IsKeyed conflicts

abbrev pub active : ConflictRepository → Bytes → Bool
active repo conflict_id = mem conflict_id (ids (list_active repo))

-- An identifier is active if it is known and not resolved.
active_lem :
    (repo : ConflictRepository) (conflict_id : Bytes)
    → IsKeyed repo.conflicts
    → active repo conflict_id
      ≡ (Dict.has (Dict.lookup conflict_id repo.conflicts) && not (mem conflict_id repo.resolved))
unfolding list_active Dict.lookup
active_lem repo conflict_id k = known repo.conflicts k
  where
    known :
        (conflicts : Dict ConflictMetadata)
        → IsKeyed conflicts
        → mem conflict_id (ids (unresolved repo.resolved (values conflicts)))
          ≡ (Dict.has (Dict.lookup conflict_id conflicts) && not (mem conflict_id repo.resolved))
    known [] k = refl
    known ((key, conflict) ∷ conflicts) k =
        ground (arith, known conflicts k.1, k.0, beq_iff key conflict_id, beq_iff conflict_id key)

insert-IsKeyed :
    (conflict : ConflictMetadata) (conflicts : Dict ConflictMetadata)
    → IsKeyed conflicts
    → IsKeyed (Dict.insert conflict.conflict_id conflict conflicts)
unfolding Dict.insert
insert-IsKeyed conflict [] k = (refl, tt)
insert-IsKeyed conflict ((key, other) ∷ conflicts) k =
    elim (Bool-cases (beq key conflict.conflict_id)) [
      | inl e ↦ rw e (sym ((beq_iff key conflict.conflict_id).0 e), k.1)
      | inr e ↦ rw e (k.0, insert-IsKeyed conflict conflicts k.1)
    ]

save-active :
    (repo : ConflictRepository) (conflict : ConflictMetadata) (other : Bytes)
    → IsKeyed repo.conflicts
    → mem conflict.conflict_id repo.resolved ≡ false
    → active (save repo conflict) other ≡ (beq conflict.conflict_id other || active repo other)
unfolding save
save-active repo conflict other k fresh =
    active_lem
      (record repo { conflicts = Dict.insert conflict.conflict_id conflict repo.conflicts }) other
      (insert-IsKeyed conflict repo.conflicts k)
    ∙ ground (
      arith,
      active_lem repo other k,
      lookup-insert conflict.conflict_id other conflict repo.conflicts,
      fresh,
      beq_iff conflict.conflict_id other,
    )

resolve-active :
    (repo : ConflictRepository) (conflict_id other : Bytes)
    → IsKeyed repo.conflicts
    → Dict.has (Dict.lookup conflict_id repo.conflicts) ≡ true
    → active (resolve repo conflict_id) other ≡ (active repo other && not (beq conflict_id other))
unfolding resolve add
resolve-active repo conflict_id other k found =
    rw found (elim (Bool-cases (mem conflict_id repo.resolved)) [
      | inl e ↦ rw e (
          active_lem repo other k
          ∙ ground (arith, active_lem repo other k, e, beq_iff conflict_id other))
      | inr e ↦ rw e (
          active_lem (record repo { resolved = conflict_id ∷ repo.resolved }) other k
          ∙ ground (
            arith,
            active_lem repo other k,
            beq_iff conflict_id other,
            beq_iff other conflict_id,
          ))
    ])

-- Concurrent versions record a conflict under a new identifier, which is active beside those that were;
-- resolving it with any strategy gives the strategy's verdict on the recorded conflict, and leaves active
-- exactly those that were active before, but the new one.
pub conflict_lifecycle :
    (strategy : ConflictMetadata → ConflictMetadata → Bool) (repo : ConflictRepository)
    (conflict_id file_path device_id : Bytes) (now : ℕ)
    (local_version remote_version : VersionVector) (remote : ConflictMetadata)
    → IsKeyed repo.conflicts
    → mem conflict_id repo.resolved ≡ false
    → is_concurrent local_version remote_version ≡ true
    → let detected = detect repo conflict_id now file_path local_version remote_version device_id in
      (conflict : ConflictMetadata) × (detected.0 ≡ some conflict)
      × ((other : Bytes) → active detected.1 other ≡ (beq conflict_id other || active repo other))
      × ((resolve_conflict strategy detected.1 conflict_id remote).0
          ≡ ok (strategy conflict remote))
      × ((other : Bytes)
          → active (resolve_conflict strategy detected.1 conflict_id remote).1 other
            ≡ (active repo other && not (beq conflict_id other)))
unfolding detect resolve_conflict get_by_id save
conflict_lifecycle strategy repo conflict_id file_path device_id now local_version remote_version
      remote k fresh c =
    let conflict : ConflictMetadata = record {
      conflict_id = conflict_id;
      file_path = file_path;
      conflict_type = concurrent_modification;
      local_version = local_version;
      remote_version = remote_version;
      remote_device_id = device_id;
      detected_at = now;
    } in
    let saved = save repo conflict in
    let found : Dict.lookup conflict_id saved.conflicts ≡ some conflict =
      lookup-insert conflict_id conflict_id conflict repo.conflicts
      ∙ ground (arith, beq_refl conflict_id) in
    rw c (
      conflict,
      refl,
      λ other. save-active repo conflict other k fresh,
      rw found refl,
      λ other. rw found (
          resolve-active saved conflict_id other (insert-IsKeyed conflict repo.conflicts k)
            (ap Dict.has found)
          ∙ ground (arith, save-active repo conflict other k fresh, beq_iff conflict_id other)),
    )

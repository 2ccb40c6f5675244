-- ===== src/Conflict.antt =====
-- Conflicts and their resolution: `ConflictMetadata` of src/securesync/domain/conflict.py, the in-memory
-- repository (in_memory_conflict_repository.py of infrastructure/networking) and the use cases of
-- src/securesync/application/use_cases/conflict_resolution.py. A new identifier and the time are arguments.
pub mod Lifecycle
use secure_sync.Prelude.{
  ℕ, Bool, true, false, not, ltb, Option, none, some, List, [], ◌∷◌, map, if◌then◌else◌,
}
use secure_sync.Prelude.Bytes.{Bytes, mem}
use secure_sync.Errors.{Result, ok, err, conflict_not_found_error}
use secure_sync.Dict
use secure_sync.Dict.{Dict}
use secure_sync.Versions.{VersionVector, is_concurrent}

pub data ConflictType : Type 0 where
  concurrent_modification modify_delete rename_conflict move_conflict : ConflictType

pub record ConflictMetadata : Type 0 where
  pub conflict_id : Bytes
  pub file_path : Bytes
  pub conflict_type : ConflictType
  pub local_version : VersionVector
  pub remote_version : VersionVector
  pub remote_device_id : Bytes
  pub detected_at : ℕ

-- `InMemoryConflictRepository`
pub record ConflictRepository : Type 0 where
  pub conflicts : Dict ConflictMetadata
  pub resolved : List Bytes

unfoldable pub save : ConflictRepository → ConflictMetadata → ConflictRepository
save repo conflict = record repo {
  conflicts = Dict.insert conflict.conflict_id conflict repo.conflicts;
}

unfoldable pub get_by_id : ConflictRepository → Bytes → Option ConflictMetadata
get_by_id repo conflict_id = Dict.lookup conflict_id repo.conflicts

abbrev pub values : Dict ConflictMetadata → List ConflictMetadata
values [] = []
values ((key, conflict) ∷ conflicts) = conflict ∷ values conflicts

unfoldable pub list_all : ConflictRepository → List ConflictMetadata
list_all repo = values repo.conflicts

abbrev pub unresolved : List Bytes → List ConflictMetadata → List ConflictMetadata
unresolved resolved [] = []
unresolved resolved (conflict ∷ conflicts) =
    let rest = unresolved resolved conflicts in
    if mem conflict.conflict_id resolved then rest else conflict ∷ rest

unfoldable pub list_active : ConflictRepository → List ConflictMetadata
list_active repo = unresolved repo.resolved (values repo.conflicts)

-- A set of identifiers: adding one that is there changes nothing.
unfoldable pub add : Bytes → List Bytes → List Bytes
add conflict_id resolved = if mem conflict_id resolved then resolved else conflict_id ∷ resolved

unfoldable pub resolve : ConflictRepository → Bytes → ConflictRepository
unfolding add
resolve repo conflict_id =
    if Dict.has (Dict.lookup conflict_id repo.conflicts)
    then record repo { resolved = add conflict_id repo.resolved }
    else repo

-- `LastWriterWinsStrategy.merge`
unfoldable pub merge : ConflictMetadata → ConflictMetadata → Bool
merge local remote = ltb local.detected_at remote.detected_at

-- `DetectConflictUseCase.execute`
unfoldable pub detect :
    ConflictRepository
    → (conflict_id : Bytes) (now : ℕ) (file_path : Bytes)
      (local_version remote_version : VersionVector) (remote_device_id : Bytes)
    → Option ConflictMetadata × ConflictRepository
unfolding save
detect repo conflict_id now file_path local_version remote_version remote_device_id =
    if is_concurrent local_version remote_version
    then (let conflict : ConflictMetadata = record {
      conflict_id = conflict_id;
      file_path = file_path;
      conflict_type = concurrent_modification;
      local_version = local_version;
      remote_version = remote_version;
      remote_device_id = remote_device_id;
      detected_at = now;
    } in
        (some conflict, save repo conflict))
    else (none, repo)

abbrev pub resolve_found :
    (ConflictMetadata → ConflictMetadata → Bool)
    → ConflictRepository
    → Bytes
    → ConflictMetadata
    → Option ConflictMetadata
    → Result Bool × ConflictRepository
resolve_found strategy repo conflict_id remote none = (err conflict_not_found_error, repo)
resolve_found strategy repo conflict_id remote (some local) =
    (ok (strategy local remote), resolve repo conflict_id)

-- `ResolveConflictUseCase.execute`
unfoldable pub resolve_conflict :
    (ConflictMetadata → ConflictMetadata → Bool)
    → ConflictRepository
    → Bytes
    → ConflictMetadata
    → Result Bool × ConflictRepository
unfolding get_by_id resolve
resolve_conflict strategy repo conflict_id remote =
    resolve_found strategy repo conflict_id remote (get_by_id repo conflict_id)

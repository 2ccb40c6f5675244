-- ===== src/Direction.antt =====
-- `SyncDirectionResolver` of src/securesync/domain/sync_direction.py. A decision is its direction and
-- the kind of its reason; the reason's text, which only goes to the log, is not built.
pub mod Mirror
use secure_sync.Prelude.{
  ℕ, ltb, Bool, true, false, not, ◌||◌, ◌&&◌, Option, none, some, List, [], ◌∷◌, if◌then◌else◌,
}
use secure_sync.Prelude.Bytes.{Bytes, mem}
use secure_sync.Chunk.{ChunkMetadata, ChunkCollection, chunk_count}
use secure_sync.Versions.{VersionVector, lt}

pub data SyncDirection : Type 0 where
  push pull conflict noop : SyncDirection

-- One constructor for each text that the source puts in `reason`.
pub data Reason : Type 0 where
  peer_has_no_manifest neither_has_the_file remote_is_newer local_is_newer : Reason
  versions_equal_content_matches no_version_vectors both_sides_differ : Reason
  local_has_chunks remote_has_chunks chunk_sets_equal : Reason

pub record SyncDirectionDecision : Type 0 where
  pub direction : SyncDirection
  pub reason : Reason

abbrev pub decide : SyncDirection → Reason → SyncDirectionDecision
decide d r = record { direction = d; reason = r }

-- The set comprehension of digests; a set is a list of its members.
unfoldable pub digests_of : List ChunkMetadata → List Bytes
digests_of [] = []
digests_of (m ∷ ms) = elim m.chunk_hash [ none ↦ digests_of ms | some h ↦ h.digest ∷ digests_of ms ]

unfoldable pub digests : Option ChunkCollection → List Bytes
digests none = []
digests (some c) = digests_of c.chunks

-- Whether the difference of two sets is not empty.
unfoldable pub has_extra : List Bytes → List Bytes → Bool
has_extra [] ys = false
has_extra (x ∷ xs) ys = not (mem x ys) || has_extra xs ys

unfoldable pub diff_content_hashes :
    Option ChunkCollection → Option ChunkCollection → SyncDirectionDecision
diff_content_hashes mine theirs =
    let local_only = has_extra (digests mine) (digests theirs) in
    let remote_only = has_extra (digests theirs) (digests mine) in
    if local_only && remote_only
    then decide conflict both_sides_differ
    else if local_only
    then decide push local_has_chunks
    else if remote_only
    then decide pull remote_has_chunks
    else decide noop chunk_sets_equal

-- What `_resolve_with_versions` makes of the content's decision.
unfoldable pub explain_noop : SyncDirectionDecision → SyncDirectionDecision
explain_noop d = elim d.direction [ noop ↦ decide noop versions_equal_content_matches | _ ↦ d ]

unfoldable pub resolve_with_versions :
    VersionVector
    → VersionVector
    → Option ChunkCollection
    → Option ChunkCollection
    → SyncDirectionDecision
resolve_with_versions mine_v theirs_v mine theirs =
    if lt mine_v theirs_v
    then decide pull remote_is_newer
    else if lt theirs_v mine_v
    then decide push local_is_newer
    else explain_noop (diff_content_hashes mine theirs)

-- What `_resolve_without_versions` makes of the content's decision.
unfoldable pub push_conflict : SyncDirectionDecision → SyncDirectionDecision
push_conflict d = elim d.direction [ conflict ↦ decide push no_version_vectors | _ ↦ d ]

unfoldable pub resolve_without_versions :
    Option ChunkCollection → Option ChunkCollection → SyncDirectionDecision
resolve_without_versions mine theirs = push_conflict (diff_content_hashes mine theirs)

-- The first branch of `resolve`: the peer has neither a manifest nor a version.
unfoldable pub resolve_unknown_peer : Option ChunkCollection → SyncDirectionDecision
resolve_unknown_peer none = decide noop neither_has_the_file
resolve_unknown_peer (some c) =
    if ltb 0 (chunk_count c)
    then decide push peer_has_no_manifest
    else decide noop neither_has_the_file

unfoldable pub resolve :
    Option ChunkCollection
    → Option VersionVector
    → Option ChunkCollection
    → Option VersionVector
    → SyncDirectionDecision
resolve mine mine_v none none = resolve_unknown_peer mine
resolve mine (some v) theirs (some w) = resolve_with_versions v w mine theirs
resolve mine none theirs (some w) = resolve_without_versions mine theirs
resolve mine mine_v (some c) none = resolve_without_versions mine (some c)

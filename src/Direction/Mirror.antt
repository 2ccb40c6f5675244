-- ===== src/Direction/Mirror.antt =====
-- The decisions of `SyncDirectionResolver.resolve` (sync_direction.py), seen from both ends.
use secure_sync.Prelude.{◌≡◌, Option, some, arith}
use secure_sync.Dict.{IsDict}
use secure_sync.Chunk.{ChunkCollection}
use secure_sync.Versions.{VersionVector}
use secure_sync.Versions.Order.{lt_asymmetric, IsPositive}
use secure_sync.Direction.{
  SyncDirection, push, pull, conflict, noop, resolve, resolve_with_versions, diff_content_hashes,
  explain_noop,
}

-- The same decision, as the peer should see it.
abbrev pub mirrored : SyncDirection → SyncDirection
mirrored push = pull
mirrored pull = push
mirrored conflict = conflict
mirrored noop = noop

diff-mirrored :
    (mine theirs : Option ChunkCollection)
    → (diff_content_hashes theirs mine).direction
      ≡ mirrored (diff_content_hashes mine theirs).direction
unfolding diff_content_hashes
diff-mirrored mine theirs = ground arith

explain_noop-direction :
    (mine theirs : Option ChunkCollection)
    → (explain_noop (diff_content_hashes mine theirs)).direction
      ≡ (diff_content_hashes mine theirs).direction
unfolding explain_noop diff_content_hashes
explain_noop-direction mine theirs = ground arith

-- Two peers that exchange manifests and versions take matching decisions: one pushes exactly when the
-- other pulls, and both see a conflict, or nothing to do, together. The versions have no counter twice
-- and none that is zero.
pub resolve-mirrored :
    (mine theirs : Option ChunkCollection) (v w : VersionVector)
    → IsDict v.counters
    → IsDict w.counters
    → IsPositive v.counters
    → IsPositive w.counters
    → (resolve theirs (some w) mine (some v)).direction
      ≡ mirrored (resolve mine (some v) theirs (some w)).direction
unfolding resolve resolve_with_versions
resolve-mirrored mine theirs v w u u' p p' = ground (
  arith,
  lt_asymmetric v w u u' p p',
  explain_noop-direction mine theirs,
  explain_noop-direction theirs mine,
  diff-mirrored mine theirs,
)

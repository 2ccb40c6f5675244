-- ===== src/Tests/Files.antt =====
-- The properties of versions, manifests, deltas and directions on small files.
use secure_sync.Prelude.{ℕ, ◌<◌, ◌≡◌, ◌↔◌, refl, true, ◌&&◌, some, [], ◌∷◌, arith, map, length, all}
use secure_sync.Prelude.Int.{pos}
use secure_sync.Prelude.Bytes.{Bytes}
use secure_sync.Dict
use secure_sync.Chunk.{
  ChunkHash, ChunkMetadata, ChunkCollection, ChunkAlgorithm, make_collection, sum_sizes,
  positive_of, natural_of, check_indices,
}
use secure_sync.Chunk.Manifest.{index_of, count_from, make_collection_checked}
use secure_sync.Delta.{DeltaPlan, compute, is_compatible, transfer, reuse}
use secure_sync.Delta.Plans.{is_hashed, is_ok, compute_succeeds}
use secure_sync.Versions.{VersionVector, merge, le}
use secure_sync.Versions.Order.{le-merge}
use secure_sync.Direction.{resolve}
use secure_sync.Direction.Mirror.{mirrored, resolve-mirrored}

abbrev version_a : VersionVector
version_a = record { counters = (1 ∷ [], 2) ∷ [] }

abbrev version_b : VersionVector
version_b = record { counters = (2 ∷ [], 1) ∷ [] }

le-merge_example :
    (le (merge version_a version_b) version_a ≡ true)
    ↔ ((le version_a version_a ≡ true) × (le version_b version_a ≡ true))
unfolding Dict.lookup
le-merge_example = le-merge version_a version_b version_a (refl, tt) (refl, tt)

abbrev hash_of : Bytes → ChunkHash
hash_of d = record { algorithm = ChunkAlgorithm.sha256; digest = d }

abbrev metadata_at : ℕ → ℕ → ℕ → ChunkMetadata
metadata_at i o d = record {
  chunk_id = i ∷ [];
  index = i;
  size = 4;
  offset = o;
  chunk_hash = some (hash_of (d ∷ []));
  created_at = 0;
}

abbrev old_manifest : ChunkCollection
old_manifest = record {
  source_path = 1 ∷ [];
  chunk_size = 4;
  total_size = 8;
  chunks = metadata_at 0 0 10 ∷ metadata_at 1 4 11 ∷ [];
}

abbrev new_manifest : ChunkCollection
new_manifest = record {
  source_path = 1 ∷ [];
  chunk_size = 4;
  total_size = 8;
  chunks = metadata_at 0 0 12 ∷ metadata_at 1 4 10 ∷ [];
}

resolve-mirrored_example :
    (resolve (some new_manifest) (some version_b) (some old_manifest) (some version_a)).direction
    ≡ mirrored
        (resolve
          (some old_manifest)
          (some version_a)
          (some new_manifest)
          (some version_b)).direction
unfolding Dict.lookup
resolve-mirrored_example =
    resolve-mirrored (some old_manifest) (some new_manifest) version_a version_b (refl, tt)
      (refl, tt) (omega arith, tt) (omega arith, tt)

compute_succeeds_example :
    is_ok (compute (some old_manifest) new_manifest)
    ≡ is_compatible (some old_manifest) new_manifest && all is_hashed new_manifest.chunks
compute_succeeds_example = compute_succeeds (some old_manifest) new_manifest

-- The first chunk is sent, the second one has moved.
abbrev update : DeltaPlan
update = record {
  source_path = 1 ∷ [];
  baseline = some old_manifest;
  current = new_manifest;
  entries =
      record { metadata = metadata_at 0 0 12; action = transfer }
      ∷ record { metadata = metadata_at 1 4 10; action = reuse }
      ∷ [];
}

abbrev no_update : DeltaPlan
no_update = record {
  source_path = 1 ∷ [];
  baseline = some old_manifest;
  current = old_manifest;
  entries =
      record { metadata = metadata_at 0 0 10; action = reuse }
      ∷ record { metadata = metadata_at 1 4 11; action = reuse }
      ∷ [];
}

make_collection_checked_example :
    (old_manifest.chunks ≡ old_manifest.chunks)
    × (map index_of old_manifest.chunks ≡ count_from 0 (length old_manifest.chunks))
    × (pos 8 ≡ pos (sum_sizes old_manifest.chunks))
    × (pos 4 ≡ pos old_manifest.chunk_size)
    × (0 < old_manifest.chunk_size)
unfolding make_collection positive_of natural_of check_indices sum_sizes
make_collection_checked_example =
    make_collection_checked (1 ∷ []) (pos 4) (pos 8) old_manifest.chunks old_manifest refl

-- ===== src/Delta.antt =====
-- `DeltaCalculator` and `DeltaPlan` of src/securesync/domain/delta.py: which chunks of a manifest must
-- be sent, given a manifest that the other end is known to have.
pub mod Plans
use secure_sync.Prelude.{
  ℕ, zero, suc, ◌-◌, ltb, ◌≡◌, Bool, true, false, ◌&&◌, Option, none, some, List, [], ◌∷◌, length,
  if◌then◌else◌,
}
use secure_sync.Prelude.Bytes.{Bytes, beq, mem}
use secure_sync.Errors.{
  Result, ok, err, ◌>>=◌, ◌>>◌, guard, incompatible_baseline_error, unhashed_chunk_error,
}
use secure_sync.Chunk.{
  ChunkMetadata, ChunkCollection, ChunkHash, sum_sizes, chunk_count, ChunkAlgorithm, sha256,
}

pub data ChunkAction : Type 0 where
  transfer reuse : ChunkAction

pub record ChunkDeltaEntry : Type 0 where
  pub metadata : ChunkMetadata
  pub action : ChunkAction

pub record DeltaPlan : Type 0 where
  pub source_path : Bytes
  pub baseline : Option ChunkCollection
  pub current : ChunkCollection
  pub entries : List ChunkDeltaEntry

-- The comprehension of `chunks_to_transfer`, entry by entry.
unfoldable pub transferred : List ChunkDeltaEntry → List ChunkMetadata
transferred [] = []
transferred (e ∷ es) = elim e.action [
  | transfer ↦ e.metadata ∷ transferred es
  | reuse ↦ transferred es
]

unfoldable pub chunks_to_transfer : DeltaPlan → List ChunkMetadata
chunks_to_transfer p = transferred p.entries

unfoldable pub transfer_count : DeltaPlan → ℕ
transfer_count p = length (chunks_to_transfer p)

-- The source subtracts integers; `transfer_count` is never the larger one.
unfoldable pub reuse_count : DeltaPlan → ℕ
reuse_count p = chunk_count p.current - transfer_count p

unfoldable pub bytes_to_transfer : DeltaPlan → ℕ
bytes_to_transfer p = sum_sizes (chunks_to_transfer p)

unfoldable pub is_first_sync : DeltaPlan → Bool
is_first_sync p = elim p.baseline [ none ↦ true | some b ↦ false ]

unfoldable pub has_changes : DeltaPlan → Bool
has_changes p = ltb 0 (transfer_count p)

unfoldable pub same_algorithm : ChunkAlgorithm → ChunkAlgorithm → Bool
same_algorithm sha256 sha256 = true

-- Equality of two `ChunkHash` values.
unfoldable pub same_hash : ChunkHash → ChunkHash → Bool
same_hash h k = same_algorithm h.algorithm k.algorithm && beq h.digest k.digest

-- `h in known_hashes`; a `frozenset` of hashes is a list of them.
unfoldable pub in_hashes : ChunkHash → List ChunkHash → Bool
in_hashes h [] = false
in_hashes h (k ∷ ks) = if same_hash h k then true else in_hashes h ks

unfoldable pub hashes_of : List ChunkMetadata → List ChunkHash
hashes_of [] = []
hashes_of (m ∷ ms) = elim m.chunk_hash [ none ↦ hashes_of ms | some h ↦ h ∷ hashes_of ms ]

unfoldable pub known_hashes : Option ChunkCollection → List ChunkHash
known_hashes none = []
known_hashes (some baseline) = hashes_of baseline.chunks

unfoldable pub require_hash : ChunkMetadata → Result ChunkHash
require_hash m = elim m.chunk_hash [ none ↦ err unhashed_chunk_error | some h ↦ ok h ]

-- The generator expression of `compute`: one entry for each chunk, or the first chunk's error.
unfoldable pub classify : List ChunkHash → List ChunkMetadata → Result (List ChunkDeltaEntry)
classify known [] = ok []
classify known (m ∷ ms) = require_hash m >>= λ h. classify known ms >>= λ es.
    ok (record { metadata = m; action = if in_hashes h known then reuse else transfer } ∷ es)

unfoldable pub is_compatible : Option ChunkCollection → ChunkCollection → Bool
is_compatible none current = true
is_compatible (some baseline) current = beq baseline.source_path current.source_path

unfoldable pub compute : Option ChunkCollection → ChunkCollection → Result DeltaPlan
compute baseline current =
    guard (is_compatible baseline current) incompatible_baseline_error
    >> classify (known_hashes baseline) current.chunks
    >>= λ es. ok (record {
      source_path = current.source_path;
      baseline = baseline;
      current = current;
      entries = es;
    })

-- ===== src/Chunk.antt =====
-- The value objects of src/securesync/domain/chunk.py: chunks, their metadata and a file's manifest.
-- Paths and identifiers are their UTF-8 bytes, a digest the list of its characters; `created_at` is the
-- clock's reading, an argument.
pub mod Manifest
use secure_sync.Prelude.{
  ℕ, zero, suc, ◌+◌, ◌==◌, ◌≡◌, ◌<◌, refl, ap, arith, Bool, true, false, Option, none, some, List,
  [], ◌∷◌, length, not,
}
use secure_sync.Prelude.Int.{ℤ, pos, negsuc}
use secure_sync.Prelude.Bytes.{Bytes}
use secure_sync.Errors.{Result, ok, err, ◌>>=◌, ◌>>◌, guard, value_error}

pub data ChunkAlgorithm : Type 0 where
  sha256 : ChunkAlgorithm

-- `_DIGEST_HEX_LENGTH`
unfoldable pub digest_hex_length : ChunkAlgorithm → ℕ
digest_hex_length sha256 = 64

pub record ChunkHash : Type 0 where
  pub algorithm : ChunkAlgorithm
  pub digest : Bytes

-- `ChunkHash(...)`; whether `int(digest, 16)` accepts the digest is `is_hexadecimal`.
unfoldable pub make_hash : (Bytes → Bool) → ChunkAlgorithm → Bytes → Result ChunkHash
make_hash is_hexadecimal algorithm digest =
    guard (not (length digest == 0)) value_error
    >> guard (is_hexadecimal digest) value_error
    >> guard (length digest == digest_hex_length algorithm) value_error
    >> ok (record { algorithm = algorithm; digest = digest })

pub record ChunkMetadata : Type 0 where
  pub chunk_id : Bytes
  pub index : ℕ
  pub size : ℕ
  pub offset : ℕ
  pub chunk_hash : Option ChunkHash
  pub created_at : ℕ

-- `if n < 0: raise ValueError`
unfoldable pub natural_of : ℤ → Result ℕ
natural_of (pos n) = ok n
natural_of (negsuc n) = err value_error

-- `if n <= 0: raise ValueError`
unfoldable pub positive_of : ℤ → Result ℕ
positive_of (pos zero) = err value_error
positive_of (pos (suc n)) = ok (suc n)
positive_of (negsuc n) = err value_error

-- `ChunkMetadata(...)` with its checks.
unfoldable pub make_metadata : Bytes → ℤ → ℤ → ℤ → Option ChunkHash → ℕ → Result ChunkMetadata
make_metadata chunk_id index size offset chunk_hash now =
    guard (not (length chunk_id == 0)) value_error >> natural_of index >>= λ i.
    natural_of size >>= λ s. natural_of offset >>= λ o. ok (record {
      chunk_id = chunk_id;
      index = i;
      size = s;
      offset = o;
      chunk_hash = chunk_hash;
      created_at = now;
    })

unfoldable pub with_hash : ChunkMetadata → ChunkHash → ChunkMetadata
with_hash m h = record m { chunk_hash = some h }

pub record Chunk : Type 0 where
  pub metadata : ChunkMetadata
  pub content : Bytes

-- `Chunk(...)`
unfoldable pub make_chunk : ChunkMetadata → Bytes → Result Chunk
make_chunk m content =
    guard (length content == m.size) value_error >> ok (record { metadata = m; content = content })

-- `Chunk.with_hash`, whose `replace` runs the check again.
unfoldable pub chunk_with_hash : Chunk → ChunkHash → Result Chunk
chunk_with_hash c h = make_chunk (with_hash c.metadata h) c.content

pub record ChunkCollection : Type 0 where
  pub source_path : Bytes
  pub chunk_size : ℕ
  pub total_size : ℕ
  pub chunks : List ChunkMetadata

-- `for expected_index, chunk in enumerate(self.chunks)`
unfoldable pub check_indices : ℕ → List ChunkMetadata → Result (Unit {0})
check_indices expected [] = ok tt
check_indices expected (m ∷ ms) =
    guard (m.index == expected) value_error >> check_indices (suc expected) ms

-- `sum(chunk.size for chunk in chunks)`
unfoldable pub sum_sizes : List ChunkMetadata → ℕ
sum_sizes [] = 0
sum_sizes (m ∷ ms) = m.size + sum_sizes ms

-- `ChunkCollection(...)` with its checks.
unfoldable pub make_collection : Bytes → ℤ → ℤ → List ChunkMetadata → Result ChunkCollection
make_collection source_path chunk_size total_size chunks = positive_of chunk_size >>= λ c.
    natural_of total_size >>= λ t.
    check_indices 0 chunks
    >> guard (sum_sizes chunks == t) value_error
    >> ok (record { source_path = source_path; chunk_size = c; total_size = t; chunks = chunks })

unfoldable pub chunk_count : ChunkCollection → ℕ
chunk_count c = length c.chunks

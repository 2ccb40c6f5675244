-- ===== src/Reader.antt =====
-- src/securesync/infrastructure/chunking/streaming_chunk_reader.py: a file is read in blocks and cut into
-- chunks. The file is its bytes that are still to be read; opening it is left out. The identifiers (UUIDs) and the
-- times of creation are parameters.
pub mod Rounds
pub mod Fixed
use secure_sync.Prelude.{
  ℕ, zero, suc, ◌+◌, ◌*◌, max, min, Bool, true, false, not, ◌&&◌, ◌==◌, Option, none, some, List,
  [], ◌∷◌, ◌++◌, length, take, drop, leb, if◌then◌else◌,
}
use secure_sync.Prelude.Int.{pos}
use secure_sync.Prelude.Bytes.{Bytes}
use secure_sync.Errors.{
  Error, Result, ok, err, ◌>>=◌, ◌>>◌, guard, chunking_error, invalid_chunk_size_error,
}
use secure_sync.Chunk.{ChunkMetadata, Chunk, make_metadata, make_chunk}

abbrev pub max_read_block_bytes : ℕ
max_read_block_bytes = 16 * 1024 * 1024

-- The port `ChunkingStrategy`: a cut of `none` asks for more bytes.
pub record ChunkingStrategy : Type 0 where
  pub preferred_read_block_size : ℕ
  pub next_cut : (buffered : Bytes) (at_eof : Bool) → Option ℕ

-- `FixedSizeChunkingStrategy.next_cut`
unfoldable pub next_cut : ℕ → Bytes → Bool → Option ℕ
next_cut chunk_size buffered at_eof =
    if leb chunk_size (length buffered)
    then some chunk_size
    else if at_eof
    then (if length buffered == 0 then none else some (length buffered))
    else none

-- `FixedSizeChunkingStrategy(chunk_size)`
unfoldable pub make_strategy : ℕ → Result ChunkingStrategy
unfolding next_cut
make_strategy chunk_size =
    guard (not (chunk_size == 0)) invalid_chunk_size_error
    >> ok (record { preferred_read_block_size = chunk_size; next_cut = next_cut chunk_size })

-- What one round of the loop comes to: the end, another round with a fuller accumulator, a chunk and another
-- round, a last chunk, or an error.
pub data Round : Type 0 where
  finished : Round
  again : (accumulator file : Bytes) → Round
  cut : (chunk : Chunk) (accumulator file : Bytes) → Round
  last : (chunk : Chunk) → Round
  failed : Error → Round

-- The chunks that were yielded, and how the loop ended, if the fuel was enough.
abbrev pub Streamed : Type 0
Streamed = List Chunk × Option (Result (Unit {0}))

-- What follows a round, by the rounds after it.
abbrev pub proceed :
    ((index offset : ℕ) (accumulator file : Bytes) → Streamed)
    → (index offset : ℕ) → Round
    → Streamed
proceed next index offset finished = ([], some (ok tt))
proceed next index offset (again accumulator file) = next index offset accumulator file
proceed next index offset (cut chunk accumulator file) =
    let (chunks, ended) = next (suc index) (offset + length chunk.content) accumulator file in
    (chunk ∷ chunks, ended)
proceed next index offset (last chunk) = (chunk ∷ [], some (ok tt))
proceed next index offset (failed e) = ([], some (err e))

module _ (derive_chunk_id : ℕ → Bytes) (created_at : ℕ → ℕ) where
  -- The chunk that is yielded at an index and an offset.
  unfoldable pub chunk_at : (index offset : ℕ) → Bytes → Result Chunk
  unfolding make_metadata make_chunk
  chunk_at index offset content = do
    metadata ←
        make_metadata (derive_chunk_id index) (pos index) (pos (length content)) (pos offset) none
          (created_at index)
    make_chunk metadata content

  abbrev pub yielded : Result Chunk → Bool → Bytes → Bytes → Round
  yielded (err e) at_eof accumulator file = failed e
  yielded (ok chunk) at_eof accumulator file =
      if at_eof && length accumulator == 0 then last chunk else cut chunk accumulator file

  abbrev pub cut_at : Option ℕ → Bool → (index offset : ℕ) → (accumulator file : Bytes) → Round
  cut_at none at_eof index offset accumulator file =
      if at_eof then finished else again accumulator file
  cut_at (some zero) at_eof index offset accumulator file = failed chunking_error
  cut_at (some (suc n)) at_eof index offset accumulator file =
      yielded (chunk_at index offset (take (suc n) accumulator)) at_eof (drop (suc n) accumulator)
        file

  module _ (strategy : ChunkingStrategy) where
    abbrev pub read_block_size : ℕ
    read_block_size = max 1 (min strategy.preferred_read_block_size max_read_block_bytes)

    -- One round: `_read_full`, the cut, and the chunk.
    unfoldable pub round : (index offset : ℕ) → (accumulator file : Bytes) → Round
    unfolding chunk_at
    round index offset accumulator file =
        let block = take read_block_size file in
        let buffered = accumulator ++ block in
        let at_eof = length block == 0 in
        cut_at (strategy.next_cut buffered at_eof) at_eof index offset buffered
          (drop read_block_size file)

    -- The loop, on fuel.
    unfoldable pub stream_chunks : ℕ → (index offset : ℕ) → (accumulator file : Bytes) → Streamed
    unfolding round
    stream_chunks zero index offset accumulator file = ([], none)
    stream_chunks (suc fuel) index offset accumulator file =
        proceed (stream_chunks fuel) index offset (round index offset accumulator file)

    -- `_stream_chunks` on a file: two rounds for each byte and one more.
    unfoldable pub read_chunks : Bytes → Streamed
    unfolding stream_chunks
    read_chunks file = stream_chunks (2 * length file + 1) 0 0 [] file

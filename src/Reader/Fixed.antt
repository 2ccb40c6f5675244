-- ===== src/Reader/Fixed.antt =====
-- The chunks that streaming_chunk_reader.py makes of a file with chunks of a fixed size.
use mathlib.Core.List.{append-nil}
use secure_sync.Prelude.{
  ℕ, zero, suc, ◌+◌, ◌*◌, ◌<◌, ◌≡◌, refl, sym, subst, ◌∙◌, inl, inr, false, ◌==◌, some, [], ◌++◌,
  length, arith,
}
use secure_sync.Prelude.Bytes.{Bytes}
use secure_sync.Errors.{ok}
use secure_sync.Reader.{
  ChunkingStrategy, make_strategy, Round, Streamed, proceed, stream_chunks, read_chunks,
}
use secure_sync.Reader.Rounds.{
  IsChunking, strategy, Progress, at_end, fuller, whole, final, round-Progress,
}

module _ (derive_chunk_id : ℕ → Bytes) (created_at : ℕ → ℕ)
    (named : (index : ℕ) → (length (derive_chunk_id index) == 0) ≡ false) (n : ℕ) where
  abbrev IsStreamed : (index offset : ℕ) → (accumulator file : Bytes) → Streamed → Type 0
  IsStreamed index offset accumulator file r =
      (r.1 ≡ some (ok tt)) × IsChunking (suc n) index offset r.0 (accumulator ++ file)

  proceed-IsStreamed :
      (fuel : ℕ) (next : (index offset : ℕ) (accumulator file : Bytes) → Streamed)
      → ((index offset : ℕ) (accumulator file : Bytes)
          → 2 * length file + length accumulator < fuel
          → IsStreamed index offset accumulator file (next index offset accumulator file))
      → (index offset : ℕ) (accumulator file : Bytes) (r : Round)
      → 2 * length file + length accumulator < suc fuel
      → Progress derive_chunk_id created_at named n index offset accumulator file r
      → IsStreamed index offset accumulator file (proceed next index offset r)
  proceed-IsStreamed fuel next ih index offset accumulator file _ h (at_end e) = (refl, e)
  proceed-IsStreamed fuel next ih index offset accumulator file _ h
        (fuller {accumulator' = a} {file' = f} same less) =
      let (returned, chunking) = ih index offset a f (omega (arith, h, less)) in
      (returned, subst (IsChunking (suc n) index offset (next index offset a f).0) same chunking)
  proceed-IsStreamed fuel next ih index offset accumulator file _ h
        (whole {chunk = k} {accumulator' = a} {file' = f} placed full same less) =
      let (returned, chunking) =
        ih (suc index) (offset + length k.content) a f (omega (arith, h, less)) in
      (returned, (placed, (a ++ f, same, inl full, chunking)))
  proceed-IsStreamed fuel next ih index offset accumulator file _ h
        (final {chunk = k} placed low high same) =
      (refl, (placed, ([], same ∙ sym (append-nil k.content), inr (refl, low, high), refl)))

  stream_chunks-IsStreamed :
      (fuel index offset : ℕ) (accumulator file : Bytes)
      → 2 * length file + length accumulator < fuel
      → IsStreamed index offset accumulator file (
          stream_chunks derive_chunk_id created_at
            (strategy derive_chunk_id created_at named n)
            fuel
            index
            offset
            accumulator
            file)
  unfolding stream_chunks
  stream_chunks-IsStreamed zero index offset accumulator file h =
      (ground (arith, h), ground (arith, h))
  stream_chunks-IsStreamed (suc fuel) index offset accumulator file h =
      proceed-IsStreamed fuel
        (stream_chunks derive_chunk_id created_at (strategy derive_chunk_id created_at named n)
          fuel)
        (stream_chunks-IsStreamed fuel) index offset accumulator file _ h
        (round-Progress derive_chunk_id created_at named n index offset accumulator file)

  sized-IsChunking :
      (file : Bytes)
      → ((read_chunks derive_chunk_id created_at
            (strategy derive_chunk_id created_at named n)
            file).1
          ≡ some (ok tt))
        × IsChunking
            (suc n)
            0
            0
            (read_chunks derive_chunk_id created_at
              (strategy derive_chunk_id created_at named n)
              file).0
            file
  unfolding read_chunks
  sized-IsChunking file = stream_chunks-IsStreamed (2 * length file + 1) 0 0 [] file (omega arith)

-- With a strategy of fixed size and identifiers that are not empty, the reader ends without an error on
-- every file, and its chunks are the file: in order, numbered from 0, at their offsets, each of the chunk
-- size but for a last one that is shorter and not empty.
pub read_chunks-IsChunking :
    (derive_chunk_id : ℕ → Bytes) (created_at : ℕ → ℕ) (chunk_size : ℕ) (fixed : ChunkingStrategy)
    (file : Bytes)
    → ((index : ℕ) → (length (derive_chunk_id index) == 0) ≡ false)
    → make_strategy chunk_size ≡ ok fixed
    → ((read_chunks derive_chunk_id created_at fixed file).1 ≡ some (ok tt))
      × IsChunking chunk_size 0 0 (read_chunks derive_chunk_id created_at fixed file).0 file
unfolding make_strategy
read_chunks-IsChunking derive_chunk_id created_at zero fixed file named made = cc made
read_chunks-IsChunking derive_chunk_id created_at (suc n) fixed file named made =
    let positive : (suc n == 0) ≡ false = ground arith in
    let same : strategy derive_chunk_id created_at named n ≡ fixed = ground (arith, made) in
    subst
      (λ s.
        ((read_chunks derive_chunk_id created_at s file).1 ≡ some (ok tt))
        × IsChunking (suc n) 0 0 (read_chunks derive_chunk_id created_at s file).0 file)
      same (sized-IsChunking derive_chunk_id created_at named n file)

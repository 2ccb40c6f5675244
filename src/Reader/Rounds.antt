-- ===== src/Reader/Rounds.antt =====
-- One round of the chunk reader's loop in streaming_chunk_reader.py with chunks of a fixed size.
use mathlib.Core.List.{append-nil, append_assoc}
use secure_sync.Prelude.{
  ℕ, zero, suc, ◌+◌, ◌*◌, ◌≤◌, ◌<◌, ◌≡◌, refl, sym, ap, subst, ◌∙◌, ◌⊎◌, inl, inr, Bool, false,
  ◌&&◌, ◌==◌, Option, none, some, List, [], ◌∷◌, ◌++◌, length, take, drop, leb, arith, Bool-cases,
  length-take, length-drop, length-append, take-append-drop,
}
use secure_sync.Prelude.Bytes.{Bytes}
use secure_sync.Errors.{ok}
use secure_sync.Chunk.{Chunk, make_metadata, make_chunk, natural_of}
use secure_sync.Reader.{
  ChunkingStrategy, next_cut, Round, finished, again, cut, last, chunk_at, yielded, cut_at,
  read_block_size, round,
}

-- A chunk that carries its place and its length.
pub record IsPlaced (index offset : ℕ) (chunk : Chunk) : Type 0 where
  pub index_eq : chunk.metadata.index ≡ index
  pub offset_eq : chunk.metadata.offset ≡ offset
  pub size_eq : chunk.metadata.size ≡ length chunk.content

-- The chunks of a sequence of bytes from an index and an offset on: each has the chunk size, but for a last
-- one that may be shorter and is not empty, and together they are the bytes.
abbrev pub IsChunking : ℕ → (index offset : ℕ) → List Chunk → Bytes → Type 0
IsChunking size index offset [] bytes = bytes ≡ []
IsChunking size index offset (chunk ∷ chunks) bytes =
    IsPlaced index offset chunk
    × ((rest : Bytes) × (bytes ≡ chunk.content ++ rest)
        × ((length chunk.content ≡ size)
            ⊎ ((rest ≡ []) × (1 ≤ length chunk.content) × (length chunk.content ≤ size)))
        × IsChunking size (suc index) (offset + length chunk.content) chunks rest)

empty_of : (bytes : Bytes) → length bytes ≡ 0 → bytes ≡ []
empty_of [] h = refl
empty_of (b ∷ bytes) h = ground (arith, h)

module _ (derive_chunk_id : ℕ → Bytes) (created_at : ℕ → ℕ)
    (named : (index : ℕ) → (length (derive_chunk_id index) == 0) ≡ false) (n : ℕ) where
  abbrev pub size : ℕ
  size = suc n

  abbrev pub strategy : ChunkingStrategy
  strategy = record { preferred_read_block_size = size; next_cut = next_cut size }

  chunk_made :
      (index offset : ℕ) (content : Bytes)
      → (chunk : Chunk) × (chunk_at derive_chunk_id created_at index offset content ≡ ok chunk)
        × IsPlaced index offset chunk
        × (chunk.content ≡ content)
  unfolding chunk_at make_metadata make_chunk natural_of
  chunk_made index offset content = (
    record {
      metadata = record {
        chunk_id = derive_chunk_id index;
        index = index;
        size = length content;
        offset = offset;
        chunk_hash = none;
        created_at = created_at index;
      };
      content = content;
    },
    ground (arith, named index),
    record { index_eq = refl; offset_eq = refl; size_eq = refl },
    refl,
  )

  -- What a round comes to, from an accumulator and the rest of the file.
  pub data Progress (index offset : ℕ) (accumulator file : Bytes) : Round → Type 0 where
    at_end : accumulator ++ file ≡ [] → Progress index offset accumulator file finished
    fuller :
        {accumulator' file' : Bytes}
        → accumulator' ++ file' ≡ accumulator ++ file
        → 2 * length file' + length accumulator' < 2 * length file + length accumulator
        → Progress index offset accumulator file (again accumulator' file')
    whole :
        {chunk : Chunk} {accumulator' file' : Bytes}
        → IsPlaced index offset chunk
        → length chunk.content ≡ size
        → accumulator ++ file ≡ chunk.content ++ (accumulator' ++ file')
        → 2 * length file' + length accumulator' < 2 * length file + length accumulator
        → Progress index offset accumulator file (cut chunk accumulator' file')
    final :
        {chunk : Chunk}
        → IsPlaced index offset chunk
        → 1 ≤ length chunk.content
        → length chunk.content ≤ size
        → accumulator ++ file ≡ chunk.content
        → Progress index offset accumulator file (last chunk)

  abbrev width : ℕ
  width = read_block_size derive_chunk_id created_at strategy

  width_pos : 1 ≤ width
  width_pos = omega arith

  rejoined :
      (accumulator file : Bytes)
      → (accumulator ++ take width file) ++ drop width file ≡ accumulator ++ file
  rejoined accumulator file =
      append_assoc accumulator (take width file) (drop width file)
      ∙ ap (λ z. accumulator ++ z) (take-append-drop width file)

  -- A chunk taken off the front of a buffer that holds what was buffered and the next block.
  cut-Progress :
      (index offset : ℕ) (accumulator file : Bytes) (m : ℕ)
      → 1 ≤ m
      → m ≤ size
      → m ≤ length (accumulator ++ take width file)
      → (m ≡ size)
        ⊎ ((length (take width file) ≡ 0) × (m ≡ length (accumulator ++ take width file)))
      → Progress index offset accumulator file (
          yielded derive_chunk_id created_at
            (chunk_at derive_chunk_id created_at index offset
              (take m (accumulator ++ take width file)))
            (length (take width file) == 0)
            (drop m (accumulator ++ take width file))
            (drop width file))
  cut-Progress index offset accumulator file m low high fits whole_or_end =
      let block = take width file in
      let buffered = accumulator ++ block in
      let left = drop m buffered in
      let rest = drop width file in
      let (chunk, made, placed, same) = chunk_made index offset (take m buffered) in
      let split : accumulator ++ file ≡ chunk.content ++ (left ++ rest) =
        sym (rejoined accumulator file)
        ∙ ap (λ z. z ++ rest) (sym (take-append-drop m buffered))
        ∙ append_assoc (take m buffered) left rest
        ∙ ap (λ z. z ++ (left ++ rest)) (sym same) in
      let len : length chunk.content ≡ m =
        ap length same ∙ omega (arith, length-take m buffered, fits) in
      let less : 2 * length rest + length left < 2 * length file + length accumulator = omega (
        arith,
        length-drop width file,
        length-drop m buffered,
        length-append accumulator block,
        length-take width file,
        width_pos,
        low,
        fits,
      ) in
      let full : (length block == 0 && length left == 0) ≡ false → length chunk.content ≡ size =
        λ e. elim whole_or_end [
          | inl s ↦ omega (arith, len, s)
          | inr (z, f) ↦ ground (arith, e, z, f, length-drop m buffered)
        ] in
      rw made (elim (Bool-cases (length block == 0 && length left == 0)) [
        | inl e ↦ rw e (
            let no_rest : rest ≡ [] =
              empty_of rest
                (ground (arith, e, length-drop width file, length-take width file, width_pos)) in
            let no_left : left ≡ [] = empty_of left (ground (arith, e)) in
            final placed (omega (arith, len, low)) (omega (arith, len, high)) (
              split
              ∙ ap (λ z. chunk.content ++ (z ++ rest)) no_left
              ∙ ap (λ z. chunk.content ++ z) no_rest
              ∙ append-nil chunk.content))
        | inr e ↦ rw e (whole placed (full e) split less)
      ])

  cut_at-some :
      (m : ℕ) (at_eof : Bool) (index offset : ℕ) (buffered rest : Bytes)
      → 1 ≤ m
      → cut_at derive_chunk_id created_at (some m) at_eof index offset buffered rest
        ≡ yielded derive_chunk_id created_at
            (chunk_at derive_chunk_id created_at index offset (take m buffered))
            at_eof
            (drop m buffered)
            rest
  cut_at-some zero at_eof index offset buffered rest h = ground (arith, h)
  cut_at-some (suc m) at_eof index offset buffered rest h = refl

  pub round-Progress :
      (index offset : ℕ) (accumulator file : Bytes)
      → Progress index offset accumulator file
          (round derive_chunk_id created_at strategy index offset accumulator file)
  unfolding round next_cut
  round-Progress index offset accumulator file =
      let block = take width file in
      let buffered = accumulator ++ block in
      let at_eof = length block == 0 in
      let rest = drop width file in
      let from_cut : (asked : Option ℕ)
          → next_cut size buffered at_eof ≡ asked
          → Progress index offset accumulator file
              (cut_at derive_chunk_id created_at asked at_eof index offset buffered rest)
          → Progress index offset accumulator file (
              cut_at derive_chunk_id created_at (next_cut size buffered at_eof) at_eof index offset
                buffered rest) =
        λ asked e h.
          subst
            (λ o.
              Progress index offset accumulator file
                (cut_at derive_chunk_id created_at o at_eof index offset buffered rest))
            (sym e) h in
      let cut_of : (m : ℕ)
          → 1 ≤ m
          → m ≤ size
          → m ≤ length buffered
          → (m ≡ size) ⊎ ((length block ≡ 0) × (m ≡ length buffered))
          → Progress index offset accumulator file
              (cut_at derive_chunk_id created_at (some m) at_eof index offset buffered rest) =
        λ m low high fits how.
          subst (Progress index offset accumulator file)
            (sym (cut_at-some m at_eof index offset buffered rest low))
            (cut-Progress index offset accumulator file m low high fits how) in
      elim (Bool-cases (leb size (length buffered))) [
        | inl enough ↦
            from_cut (some size) (rw enough refl)
              (cut_of size (omega arith) (omega arith) (ground (arith, enough)) (inl refl))
        | inr few ↦ elim (Bool-cases at_eof) [
          | inl ended ↦ elim (Bool-cases (length buffered == 0)) [
            | inl none_left ↦ from_cut none (rw (few, ended, none_left) refl) (
                rw ended (
                  at_end (
                    sym (rejoined accumulator file)
                    ∙ empty_of (buffered ++ rest) (
                        ground (
                          arith,
                          none_left,
                          ended,
                          length-append buffered rest,
                          length-drop width file,
                          length-take width file,
                          width_pos,
                        )))))
            | inr some_left ↦ from_cut (some (length buffered)) (rw (few, ended, some_left) refl) (
                cut_of (length buffered) (ground (arith, some_left)) (ground (arith, few))
                  (omega arith) (inr (ground (arith, ended), refl)))
          ]
          | inr more ↦ from_cut none (rw (few, more) refl) (
              rw more (
                fuller (rejoined accumulator file) (
                  ground (
                    arith,
                    more,
                    length-drop width file,
                    length-append accumulator block,
                    length-take width file,
                    width_pos,
                  ))))
        ]
      ]

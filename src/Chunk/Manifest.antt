-- ===== src/Chunk/Manifest.antt =====
-- The checks of `ChunkCollection.__post_init__` (chunk.py).
use secure_sync.Prelude.{
  ℕ, suc, ◌<◌, ◌≡◌, ◌==◌, refl, sym, ap, ap₂, ◌∙◌, List, [], ◌∷◌, map, length, arith, zero, ==_iff,
  Bool, true, false,
}
use secure_sync.Prelude.Int.{ℤ, pos, negsuc}
use secure_sync.Prelude.Bytes.{Bytes}
use secure_sync.Errors.{ok, guard, value_error, ◌>>◌, >>=_cases, ok-injective}
use secure_sync.Chunk.{
  ChunkMetadata, ChunkCollection, make_collection, check_indices, sum_sizes, positive_of,
  natural_of,
}

-- n numbers from `start` on.
abbrev pub count_from : ℕ → ℕ → List ℕ
count_from start zero = []
count_from start (suc n) = start ∷ count_from (suc start) n

abbrev pub index_of : ChunkMetadata → ℕ
index_of m = m.index

guard-true : (b : Bool) {u : Unit} → guard b value_error ≡ ok u → b ≡ true
guard-true true h = refl
guard-true false h = cc

check_indices-count_from :
    (start : ℕ) (ms : List ChunkMetadata) {u : Unit}
    → check_indices start ms ≡ ok u
    → map index_of ms ≡ count_from start (length ms)
unfolding check_indices
check_indices-count_from start [] h = refl
check_indices-count_from start (m ∷ ms) h =
    >>=_cases (guard (m.index == start) value_error) (λ u. check_indices (suc start) ms) h
      λ u e g.
        ap₂ ◌∷◌ ((==_iff m.index start).0 (guard-true (m.index == start) e))
          (check_indices-count_from (suc start) ms g)

positive_of_lem : (z : ℤ) (n : ℕ) → positive_of z ≡ ok n → (z ≡ pos n) × (0 < n)
unfolding positive_of
positive_of_lem (pos zero) n h = cc
positive_of_lem (pos (suc m)) n h = rw (sym (ok-injective h)) (refl, omega arith)
positive_of_lem (negsuc m) n h = cc

natural_of_lem : (z : ℤ) (n : ℕ) → natural_of z ≡ ok n → z ≡ pos n
unfolding natural_of
natural_of_lem (pos m) n h = rw (sym (ok-injective h)) refl
natural_of_lem (negsuc m) n h = cc

-- A manifest that could be built has the chunks it was given, numbered from 0 on without a gap, their
-- sizes add up to the file's size, and its chunk size is not zero.
pub make_collection_checked :
    (source_path : Bytes) (chunk_size total_size : ℤ) (chunks : List ChunkMetadata)
    (c : ChunkCollection)
    → make_collection source_path chunk_size total_size chunks ≡ ok c
    → (c.chunks ≡ chunks)
      × (map index_of c.chunks ≡ count_from 0 (length chunks))
      × (total_size ≡ pos (sum_sizes c.chunks))
      × (chunk_size ≡ pos c.chunk_size)
      × (0 < c.chunk_size)
unfolding make_collection
make_collection_checked source_path chunk_size total_size chunks c h =
    >>=_cases (positive_of chunk_size) (λ n. _) h
      λ n e g.
        >>=_cases (natural_of total_size) (λ t. _) g
          λ t e' g'.
            let summed = guard (sum_sizes chunks == t) value_error in
            >>=_cases (check_indices 0 chunks >> summed) (λ u. _) g'
              λ u both made.
                >>=_cases (check_indices 0 chunks) (λ v. summed) both
                  λ v indexed total. rw (sym (ok-injective made)) (
                    refl,
                    check_indices-count_from 0 chunks indexed,
                    natural_of_lem total_size t e'
                        ∙ ap pos (
                            sym (
                              (==_iff (sum_sizes chunks) t).0
                                (guard-true (sum_sizes chunks == t) total))),
                    (positive_of_lem chunk_size n e).0,
                    (positive_of_lem chunk_size n e).1,
                  )

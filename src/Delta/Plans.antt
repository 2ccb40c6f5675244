-- ===== src/Delta/Plans.antt =====
-- The plans of `DeltaCalculator.compute` (delta.py).
use secure_sync.Prelude.{
  ◌+◌, ◌≡◌, refl, ap, sym, Bool, true, false, not, ◌&&◌, Option, none, some, List, [], ◌∷◌, keep_if,
  all, length-keep_if-le, arith, Option-cases, inl, inr,
}
use secure_sync.Prelude.Bytes.{beq_refl}
use secure_sync.Errors.{
  Result, ok, err, ◌>>◌, >>=_cases, guard, incompatible_baseline_error, ok-injective, Result-cases,
}
use secure_sync.Chunk.{
  ChunkMetadata, ChunkCollection, ChunkHash, chunk_count, ChunkAlgorithm, sha256,
}
use secure_sync.Delta.{
  DeltaPlan, ChunkDeltaEntry, transferred, chunks_to_transfer, transfer_count, reuse_count,
  has_changes, same_hash, in_hashes, hashes_of, known_hashes, require_hash, classify, is_compatible,
  compute, same_algorithm,
}

-- Specification: a chunk whose digest the other end is not known to have.
abbrev pub is_new : List ChunkHash → ChunkMetadata → Bool
is_new known m = elim m.chunk_hash [ none ↦ true | some h ↦ not (in_hashes h known) ]

abbrev pub is_hashed : ChunkMetadata → Bool
is_hashed m = elim m.chunk_hash [ none ↦ false | some h ↦ true ]

abbrev pub is_ok {ℓ} : {A : Type ℓ} → Result A → Bool
is_ok (ok a) = true
is_ok (err e) = false

classify_ok :
    (known : List ChunkHash) (ms : List ChunkMetadata)
    → is_ok (classify known ms) ≡ all is_hashed ms
unfolding classify require_hash
classify_ok known [] = refl
classify_ok known (m ∷ ms) = ground (arith, classify_ok known ms, Result-cases (classify known ms))

-- A plan is made exactly when the baseline is of the same file and every current chunk is hashed.
pub compute_succeeds :
    (baseline : Option ChunkCollection) (current : ChunkCollection)
    → is_ok (compute baseline current)
      ≡ is_compatible baseline current && all is_hashed current.chunks
unfolding compute
compute_succeeds baseline current = ground (
  arith,
  classify_ok (known_hashes baseline) current.chunks,
  Result-cases (classify (known_hashes baseline) current.chunks),
)

transferred-classify :
    (known : List ChunkHash) (ms : List ChunkMetadata) (es : List ChunkDeltaEntry)
    → classify known ms ≡ ok es
    → transferred es ≡ keep_if (is_new known) ms
unfolding classify require_hash transferred
transferred-classify known [] es h = rw (sym (ok-injective h)) refl
transferred-classify known (m ∷ ms) es h =
    >>=_cases (require_hash m) (λ k. _) h
      λ k e g.
        >>=_cases (classify known ms) (λ es. _) g
          λ rest e' g'.
            rw (sym (ok-injective g')) (ground (arith, e, transferred-classify known ms rest e'))

pub compute_plan :
    (baseline : Option ChunkCollection) (current : ChunkCollection) (plan : DeltaPlan)
    → compute baseline current ≡ ok plan
    → (chunks_to_transfer plan ≡ keep_if (is_new (known_hashes baseline)) current.chunks)
      × (transfer_count plan + reuse_count plan ≡ chunk_count current)
unfolding compute chunks_to_transfer transfer_count reuse_count chunk_count
compute_plan baseline current plan h =
    let known = known_hashes baseline in
    let same_file = guard (is_compatible baseline current) incompatible_baseline_error in
    >>=_cases (same_file >> classify known current.chunks) (λ es. _) h
      λ es e g.
        >>=_cases same_file (λ u. classify known current.chunks) e
          λ u e' g'.
            let sent = transferred-classify known current.chunks es g' in
            let fewer = length-keep_if-le (is_new known) current.chunks in
            rw (sym (ok-injective g)) (sent, rw sent (omega (arith, fewer)))

same_algorithm_refl : (a : ChunkAlgorithm) → same_algorithm a a ≡ true
unfolding same_algorithm
same_algorithm_refl sha256 = refl

same_hash_refl : (h : ChunkHash) → same_hash h h ≡ true
unfolding same_hash
same_hash_refl h = ground (arith, beq_refl h.digest, same_algorithm_refl h.algorithm)

none_new :
    (known : List ChunkHash) (ms : List ChunkMetadata)
    → all is_hashed ms ≡ true
    → ((h : ChunkHash) → in_hashes h (hashes_of ms) ≡ true → in_hashes h known ≡ true)
    → keep_if (is_new known) ms ≡ []
unfolding hashes_of in_hashes
none_new known [] a s = refl
none_new known (m ∷ ms) a s = elim (Option-cases m.chunk_hash) [
  | inl e ↦ ground (arith, e)
  | inr (h, e) ↦
      let own = s h (rw e (ground (arith, same_hash_refl h))) in
      let rest = none_new known ms (ground (arith, e)) (λ k q. s k (rw e (ground (arith, q)))) in
      ground (arith, e, own, rest)
]

-- An unchanged file has nothing to send: a manifest planned against itself has no changes.
pub compute_unchanged :
    (manifest : ChunkCollection) (plan : DeltaPlan)
    → compute (some manifest) manifest ≡ ok plan
    → has_changes plan ≡ false
unfolding has_changes transfer_count known_hashes
compute_unchanged manifest plan h =
    rw ((compute_plan (some manifest) manifest plan h).0) rw
      (none_new (hashes_of manifest.chunks) manifest.chunks hashed (λ k q. q)) refl
  where
    hashed : all is_hashed manifest.chunks ≡ true
    hashed = ground (arith, compute_succeeds (some manifest) manifest, ap is_ok h)

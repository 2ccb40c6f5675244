-- ===== src/Tests/Folders.antt =====
-- The chunk reader, the debouncer and the conflict repository on concrete values.
use secure_sync.Prelude.{
  ℕ, zero, suc, ◌/◌, ◌≡◌, refl, ap, true, false, not, ◌&&◌, ◌||◌, some, List, [], ◌∷◌, arith,
  length,
}
use secure_sync.Prelude.Bytes.{Bytes, from_be, to_be, beq}
use secure_sync.Errors.{ok}
use secure_sync.Dict
use secure_sync.Versions.{VersionVector, is_concurrent, le, le_counters, counter_of}
use secure_sync.Reader.{ChunkingStrategy, next_cut, make_strategy, read_chunks}
use secure_sync.Reader.Fixed.{read_chunks-IsChunking}
use secure_sync.Reader.Rounds.{IsChunking}
use secure_sync.Debounce.History.{run, debouncer_refines_history}
use secure_sync.Conflict.{
  ConflictMetadata, ConflictRepository, concurrent_modification, detect, resolve_conflict, merge,
}
use secure_sync.Sas.{sas_words}
use secure_sync.Sas.Words.{IsShown, sas_words-IsShown}
use secure_sync.Conflict.Lifecycle.{active, conflict_lifecycle}

-- Five bytes in chunks of two.
abbrev file : Bytes
file = 1 ∷ 2 ∷ 3 ∷ 4 ∷ 5 ∷ []

abbrev id_of : ℕ → Bytes
id_of index = 9 ∷ index ∷ []

abbrev born : ℕ → ℕ
born index = 100

abbrev pairs : ChunkingStrategy
pairs = record { preferred_read_block_size = 2; next_cut = next_cut 2 }

read_chunks-IsChunking_example :
    ((read_chunks id_of born pairs file).1 ≡ some (ok tt))
    × IsChunking 2 0 0 (read_chunks id_of born pairs file).0 file
unfolding make_strategy
read_chunks-IsChunking_example = read_chunks-IsChunking id_of born 2 pairs file (λ i. refl) refl

abbrev events : List (Bytes × ℕ)
events = (1 ∷ [], 0) ∷ (1 ∷ [], 3) ∷ (2 ∷ [], 4) ∷ (1 ∷ [], 6) ∷ []

debouncer_refines_history_example :
    run (record { window_seconds = 5; last_seen = [] }) events ≡ (true ∷ false ∷ true ∷ true ∷ [])
unfolding beq
debouncer_refines_history_example =
    debouncer_refines_history 5 0 events
      (omega arith, (omega arith, (omega arith, (omega arith, tt))))

abbrev here : VersionVector
here = record { counters = (1 ∷ [], 1) ∷ [] }

abbrev there : VersionVector
there = record { counters = (2 ∷ [], 1) ∷ [] }

abbrev old_conflict : ConflictMetadata
old_conflict = record {
  conflict_id = 7 ∷ [];
  file_path = 97 ∷ [];
  conflict_type = concurrent_modification;
  local_version = here;
  remote_version = there;
  remote_device_id = 66 ∷ [];
  detected_at = 3;
}

abbrev repository : ConflictRepository
repository = record { conflicts = (7 ∷ [], old_conflict) ∷ []; resolved = [] }

conflict_lifecycle_example :
    let detected = detect repository (8 ∷ []) 10 (98 ∷ []) here there (66 ∷ []) in
    (conflict : ConflictMetadata) × (detected.0 ≡ some conflict)
    × ((other : Bytes) → active detected.1 other ≡ (beq (8 ∷ []) other || active repository other))
    × ((resolve_conflict merge detected.1 (8 ∷ []) old_conflict).0
        ≡ ok (merge conflict old_conflict))
    × ((other : Bytes)
        → active (resolve_conflict merge detected.1 (8 ∷ []) old_conflict).1 other
          ≡ (active repository other && not (beq (8 ∷ []) other)))
unfolding is_concurrent le le_counters counter_of Dict.lookup beq
conflict_lifecycle_example =
    conflict_lifecycle merge repository (8 ∷ []) (98 ∷ []) (66 ∷ []) 10 here there old_conflict
      (refl, tt) refl refl

-- So many words, each of two bytes and no two the same.
abbrev numbered : ℕ → List Bytes
numbered zero = []
numbered (suc n) = to_be 2 n ∷ numbered n

length-numbered : (n : ℕ) → length (numbered n) ≡ n
length-numbered zero = refl
length-numbered (suc n) = ap suc (length-numbered n)

-- Of the 24 bits of the material, two words show the leading 22.
sas_words-IsShown_example :
    (words : List Bytes) × (sas_words (1 ∷ 2 ∷ 3 ∷ []) 2 (numbered 2048) ≡ ok words)
    × IsShown (numbered 2048) 2 (from_be (1 ∷ 2 ∷ 3 ∷ []) / 4) words
sas_words-IsShown_example =
    sas_words-IsShown (1 ∷ 2 ∷ 3 ∷ []) 2 (numbered 2048)
      (omega arith, (omega arith, (omega arith, tt))) (omega arith) (omega arith)
      (length-numbered 2048) (omega arith)

-- ===== src/Sas.antt =====
-- Short authentication strings: src/securesync/infrastructure/networking/handshake_sas.py. The word list and
-- SHA-256 are parameters; a word is its bytes.
pub mod Words
use secure_sync.Prelude.{
  ℕ, zero, suc, ◌+◌, ◌-◌, ◌*◌, ◌/◌, ◌%◌, ◌^◌, ◌&&◌, ◌==◌, not, Option, none, some, List, [], ◌∷◌,
  ◌++◌, length, leb,
}
use secure_sync.Prelude.Bytes.{Bytes, from_be}
use secure_sync.Errors.{Result, ok, err, ◌>>=◌, ◌>>◌, guard, sas_error, index_error}
use secure_sync.KeySchedule.{length_prefixed}
use secure_sync.Messages.Transcript.{t1}
use secure_sync.HandshakeKeys.{transcript_size}

abbrev pub wordlist_size : ℕ
wordlist_size = 2048

abbrev pub bits_per_word : ℕ
bits_per_word = 11

abbrev pub max_word_count : ℕ
max_word_count = 8

abbrev pub sas_label : Bytes
sas_label =
    b's' ∷ b'e' ∷ b'c' ∷ b'u' ∷ b'r' ∷ b'e' ∷ b's' ∷ b'y' ∷ b'n' ∷ b'c' ∷ b'-' ∷ b'1' ∷ b'e' ∷ b'-'
    ∷ b's' ∷ b'a' ∷ b's' ∷ []

unfoldable pub sas_material : (Bytes → Bytes) → Bytes → Result Bytes
unfolding length_prefixed
sas_material sha256 transcript_final = do
  guard (length transcript_final == transcript_size) sas_error
  label ← length_prefixed sas_label
  ok (sha256 (t1 ++ (label ++ transcript_final)))

unfoldable pub check_word_count : ℕ → Result (Unit {0})
check_word_count count = guard (leb 1 count && leb count max_word_count) sas_error

unfoldable pub entropy_bits : ℕ → Result ℕ
unfolding check_word_count
entropy_bits count = check_word_count count >> ok (count * bits_per_word)

-- `(value >> (total_bits - 11 * (index + 1))) & 2047`
unfoldable pub word_index : ℕ → ℕ → ℕ → ℕ
word_index value total_bits index =
    (value / 2 ^ (total_bits - bits_per_word * (index + 1))) % wordlist_size

-- `wordlist[i]`
unfoldable pub word_at : List Bytes → ℕ → Result Bytes
word_at [] i = err index_error
word_at (word ∷ words) zero = ok word
word_at (word ∷ words) (suc i) = word_at words i

-- The words from an index on.
unfoldable pub words_from : List Bytes → ℕ → ℕ → ℕ → ℕ → Result (List Bytes)
unfolding word_index word_at
words_from wordlist value total_bits index zero = ok []
words_from wordlist value total_bits index (suc count) =
    let rest = words_from wordlist value total_bits (suc index) count in
    word_at wordlist (word_index value total_bits index) >>= λ word.
    rest >>= λ words. ok (word ∷ words)

unfoldable pub sas_words : Bytes → ℕ → List Bytes → Result (List Bytes)
unfolding check_word_count words_from
sas_words material count wordlist = do
  check_word_count count
  guard (length wordlist == wordlist_size) sas_error
  guard (leb (count * bits_per_word) (length material * 8)) sas_error
  words_from wordlist (from_be material) (length material * 8) 0 count

-- `separator.join(words)`
abbrev pub join : Bytes → List Bytes → Bytes
join separator [] = []
join separator (word ∷ []) = word
join separator (word ∷ next ∷ words) = word ++ (separator ++ join separator (next ∷ words))

unfoldable pub format_sas : List Bytes → Bytes → Result Bytes
format_sas words separator = guard (not (length words == 0)) sas_error >> ok (join separator words)

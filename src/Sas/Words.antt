-- ===== src/Sas/Words.antt =====
-- The words that handshake_sas.py shows, and the bits of the material that they stand for.
use native.Mathlib.Nat.{
  div-eq_of_lt, pow-succ', mul_assoc, zero-add, one-mul, suc-add, div-div-eq-div-mul,
}
use secure_sync.Prelude.{
  ℕ, zero, suc, ◌+◌, ◌-◌, ◌*◌, ◌/◌, ◌%◌, ◌^◌, ◌≤◌, ◌<◌, ◌≡◌, refl, sym, ap, ap₂, subst, ◌∙◌, Option,
  none, some, List, [], ◌∷◌, map, length, arith,
}
use secure_sync.Prelude.Bytes.{Bytes, IsBytes, from_be, from_be-lt}
use secure_sync.Errors.{ok}
use secure_sync.Sas.{check_word_count, word_index, word_at, words_from, sas_words}

abbrev pub get_elem? {ℓ} : {A : Type ℓ} → List A → ℕ → Option A
get_elem? [] i = none
get_elem? (x ∷ xs) zero = some x
get_elem? (x ∷ xs) (suc i) = get_elem? xs i

-- The number that digits write in base 2048, after the number that those before them write.
abbrev pub from_digits : ℕ → List ℕ → ℕ
from_digits acc [] = acc
from_digits acc (d ∷ ds) = from_digits (acc * 2048 + d) ds

abbrev pub IsDigits : List ℕ → Type 0
IsDigits [] = Unit {0}
IsDigits (d ∷ ds) = (d < 2048) × IsDigits ds

-- The words are those of the list at indices below 2048, one for each of so many digits of a number.
abbrev pub IsShown : List Bytes → ℕ → ℕ → List Bytes → Type 0
IsShown wordlist count number words =
    (indices : List ℕ) × (map (get_elem? wordlist) indices ≡ map some words)
    × (length indices ≡ count)
    × IsDigits indices
    × (from_digits 0 indices ≡ number)

word_at-ok :
    (words : List Bytes) (i : ℕ)
    → i < length words
    → (word : Bytes) × (word_at words i ≡ ok word) × (get_elem? words i ≡ some word)
unfolding word_at
word_at-ok [] i h = absurd (omega (arith, h))
word_at-ok (word ∷ words) zero h = (word, refl, refl)
word_at-ok (word ∷ words) (suc i) h = word_at-ok words i (omega (arith, h))

word_index-lt : (value total_bits index : ℕ) → word_index value total_bits index < 2048
unfolding word_index
word_index-lt value total_bits index = omega arith

-- The leading bits of the material that the words before an index show.
leading : ℕ → ℕ → ℕ → ℕ
leading value total_bits index = value / 2 ^ (total_bits - 11 * index)

pow-add : (n bits : ℕ) → 2 ^ (n + bits) ≡ 2 ^ n * 2 ^ bits
pow-add zero bits = ap (λ n. 2 ^ n) (zero-add bits) ∙ sym (one-mul (2 ^ bits))
pow-add (suc n) bits =
    ap (λ n. 2 ^ n) (suc-add n bits)
    ∙ pow-succ' 2 (n + bits)
    ∙ ap (λ p. 2 * p) (pow-add n bits)
    ∙ sym (mul_assoc 2 (2 ^ n) (2 ^ bits))
    ∙ ap (λ p. p * 2 ^ bits) (sym (pow-succ' 2 n))

shift_more : (value bits : ℕ) → value / 2 ^ (11 + bits) ≡ value / 2 ^ bits / 2048
shift_more value bits =
    ap (λ n. value / n) (omega (arith, pow-add 11 bits))
    ∙ sym (div-div-eq-div-mul value (2 ^ bits) 2048)

leading-suc :
    (value total_bits index : ℕ)
    → 11 * (index + 1) ≤ total_bits
    → leading value total_bits index * 2048 + word_index value total_bits index
      ≡ leading value total_bits (index + 1)
unfolding leading word_index
leading-suc value total_bits index h =
    let bits = total_bits - 11 * (index + 1) in
    let same : total_bits - 11 * index ≡ 11 + bits = omega (arith, h) in
    ap (λ n. value / 2 ^ n * 2048 + value / 2 ^ bits % 2048) same
    ∙ ap (λ n. n * 2048 + value / 2 ^ bits % 2048) (shift_more value bits)
    ∙ omega arith

words_from-IsShown :
    (wordlist : List Bytes) (value total_bits index count : ℕ)
    → length wordlist ≡ 2048
    → 11 * (index + count) ≤ total_bits
    → (words : List Bytes) × (indices : List ℕ) × (words_from wordlist value total_bits index count
        ≡ ok words)
      × (map (get_elem? wordlist) indices ≡ map some words)
      × (length indices ≡ count)
      × IsDigits indices
      × (from_digits (leading value total_bits index) indices
          ≡ leading value total_bits (index + count))
unfolding words_from
words_from-IsShown wordlist value total_bits index zero h o =
    ([], [], refl, refl, refl, tt, ap (leading value total_bits) (omega arith))
words_from-IsShown wordlist value total_bits index (suc count) h o =
    let low = word_index-lt value total_bits index in
    let (word, found, stands) =
      word_at-ok wordlist (word_index value total_bits index) (omega (arith, low, h)) in
    let (words, indices, rest, shown, len, digits, number) =
      words_from-IsShown wordlist value total_bits (suc index) count h (omega (arith, o)) in
    (
      word ∷ words,
      word_index value total_bits index ∷ indices,
      rw (found, rest) refl,
      ap₂ ◌∷◌ stands shown,
      ap suc len,
      (low, digits),
      ap (λ n. from_digits n indices)
            (leading-suc value total_bits index (omega (arith, o))
              ∙ ap (leading value total_bits) (omega arith))
          ∙ number
          ∙ ap (leading value total_bits) (omega arith),
    )

pow-bytes : (n : ℕ) → 256 ^ n ≡ 2 ^ (n * 8)
pow-bytes zero = refl
pow-bytes (suc n) =
    let more : suc n * 8 ≡ 8 + n * 8 = omega arith in
    sym (
      ap (λ n. 2 ^ n) more
      ∙ pow-add 8 (n * 8)
      ∙ ap (λ p. 256 * p) (sym (pow-bytes n))
      ∙ sym (pow-succ' 256 n))

leading-start :
    (material : Bytes) → IsBytes material → leading (from_be material) (length material * 8) 0 ≡ 0
unfolding leading
leading-start material b =
    let all : length material * 8 ≡ length material * 8 - 11 * 0 = omega arith in
    div-eq_of_lt (
      subst (λ n. from_be material < n) (pow-bytes (length material) ∙ ap (λ n. 2 ^ n) all)
        (from_be-lt material b))

-- With a list of 2048 words, one to eight words asked for and material that is a sequence of bytes and
-- long enough, as many words are shown as were asked for, and they are those of the list at indices below
-- 2048 which, read as the digits of a number in base 2048, write the leading bits of the material, eleven
-- for each word.
pub sas_words-IsShown :
    (material : Bytes) (count : ℕ) (wordlist : List Bytes)
    → IsBytes material
    → 1 ≤ count
    → count ≤ 8
    → length wordlist ≡ 2048
    → count * 11 ≤ length material * 8
    → (words : List Bytes) × (sas_words material count wordlist ≡ ok words)
      × IsShown wordlist count (from_be material / 2 ^ (length material * 8 - 11 * count)) words
unfolding sas_words check_word_count leading
sas_words-IsShown material count wordlist bytes low high full enough =
    let (words, indices, made, shown, len, digits, number) =
      words_from-IsShown wordlist (from_be material) (length material * 8) 0 count full
        (omega (arith, enough)) in
    (
      words,
      ground (arith, low, high, full, enough, made),
      (
        indices,
        shown,
        len,
        digits,
        ap (λ n. from_digits n indices) (sym (leading-start material bytes))
            ∙ number
            ∙ ap (λ n. from_be material / 2 ^ (length material * 8 - 11 * n)) (zero-add count),
      ),
    )

-- ===== src/Window/Bits.antt =====
-- The bit operations of `AntiReplayWindow` on its bytearray, and their laws.
use Prim.Native.Nat.{bit_and, bit_or}
use secure_sync.Prelude.{
  ℕ, zero, suc, ◌/◌, ◌%◌, ◌^◌, ◌<◌, ◌≡◌, refl, sym, Bool, true, false, not, ◌&&◌, ◌||◌, arith, ltb,
  length, length-set, get_or, set, get_or-set, get_or-replicate, replicate, ◌==◌, [], ◌∷◌,
}
use secure_sync.Prelude.Bytes.{Bytes, IsBytes}
use secure_sync.Prelude.Range.{check_below, check_below_sound}

-- `byte & (1 << k)` as a truth value
mask_test : ℕ → ℕ → Bool
mask_test byte k = not (bit_and byte (2 ^ k) == 0)

-- `_is_set`
unfoldable pub is_set : Bytes → ℕ → Bool
unfolding mask_test
is_set bits slot = mask_test (get_or bits (slot / 8) 0) (slot % 8)

-- `(old[i >> 3] >> (i & 7)) & 1`, the same test as `_slide` writes it
unfoldable pub bit_at : Bytes → ℕ → Bool
bit_at bits slot = (get_or bits (slot / 8) 0 / 2 ^ (slot % 8)) % 2 == 1

-- `_set`
unfoldable pub set_bit : Bytes → ℕ → Bytes
set_bit bits slot = set bits (slot / 8) (bit_or (get_or bits (slot / 8) 0) (2 ^ (slot % 8)))

eqb : Bool → Bool → Bool
eqb true b = b
eqb false b = not b

eqb_sound : (a b : Bool) → eqb a b ≡ true → a ≡ b
unfolding eqb
eqb_sound a b h = ground arith

abbrev or_row : ℕ → ℕ → ℕ → Bool
or_row b k j = eqb (mask_test (bit_or b (2 ^ k)) j) (k == j || mask_test b j)

abbrev byte_row : ℕ → ℕ → Bool
byte_row b k = ltb (bit_or b (2 ^ k)) 256 && eqb (mask_test b k) ((b / 2 ^ k) % 2 == 1)

or_table : check_below 256 (λ b. check_below 8 (λ k. check_below 8 (or_row b k))) ≡ true
unfolding check_below eqb mask_test
or_table = refl

byte_table : check_below 256 (λ b. check_below 8 (byte_row b)) ≡ true
unfolding check_below eqb mask_test
byte_table = refl

zero_table : check_below 8 (λ k. not (mask_test 0 k)) ≡ true
unfolding check_below mask_test
zero_table = refl

module _ (b k : ℕ) (hb : b < 256) (hk : k < 8) where
  mask_test-or : (j : ℕ) → j < 8 → mask_test (bit_or b (2 ^ k)) j ≡ (k == j || mask_test b j)
  mask_test-or j hj =
      let row =
        check_below_sound 256 (λ b. check_below 8 (λ k. check_below 8 (or_row b k))) b or_table
          hb in
      let cells = check_below_sound 8 (λ k. check_below 8 (or_row b k)) k row hk in
      eqb_sound _ _ (check_below_sound 8 (or_row b k) j cells hj)

  byte_cell : byte_row b k ≡ true
  byte_cell =
      check_below_sound 8 (byte_row b) k
        (check_below_sound 256 (λ b. check_below 8 (byte_row b)) b byte_table hb) hk

  mask_test_shift : ((b / 2 ^ k) % 2 == 1) ≡ mask_test b k
  mask_test_shift = sym (eqb_sound _ _ (ground (arith, byte_cell)))

  bit_or-lt : bit_or b (2 ^ k) < 256
  bit_or-lt = ground (arith, byte_cell)

get_or-lt : (bs : Bytes) (i : ℕ) → IsBytes bs → get_or bs i 0 < 256
get_or-lt [] i h = omega arith
get_or-lt (b ∷ bs) zero h = h.0
get_or-lt (b ∷ bs) (suc i) h = get_or-lt bs i h.1

set-IsBytes : (bs : Bytes) (i v : ℕ) → IsBytes bs → v < 256 → IsBytes (set bs i v)
set-IsBytes [] i v h k = tt
set-IsBytes (b ∷ bs) zero v h k = (k, h.1)
set-IsBytes (b ∷ bs) (suc i) v h k = (h.0, set-IsBytes bs i v h.1 k)

pub replicate-IsBytes : (n : ℕ) → IsBytes (replicate n 0)
replicate-IsBytes zero = tt
replicate-IsBytes (suc n) = (omega arith, replicate-IsBytes n)

pub length-set_bit : (bs : Bytes) (k : ℕ) → length (set_bit bs k) ≡ length bs
unfolding set_bit
length-set_bit bs k = length-set bs _ _

pub set_bit-IsBytes : (bs : Bytes) (k : ℕ) → IsBytes bs → IsBytes (set_bit bs k)
unfolding set_bit
set_bit-IsBytes bs k h =
    set-IsBytes bs _ _ h (bit_or-lt _ (k % 8) (get_or-lt bs (k / 8) h) (omega arith))

-- Both ways in which the source reads a bit agree.
pub bit_at_lem : (bs : Bytes) (k : ℕ) → IsBytes bs → bit_at bs k ≡ is_set bs k
unfolding bit_at is_set
bit_at_lem bs k h = mask_test_shift _ _ (get_or-lt bs (k / 8) h) (omega arith)

-- Setting a bit inside the array sets that bit and no other.
pub is_set-set_bit :
    (bs : Bytes) (k j : ℕ)
    → IsBytes bs
    → k / 8 < length bs
    → is_set (set_bit bs k) j ≡ (k == j || is_set bs j)
unfolding is_set set_bit
is_set-set_bit bs k j h inside = ground (
  arith,
  get_or-set bs (k / 8) (j / 8) (bit_or (get_or bs (k / 8) 0) (2 ^ (k % 8))) 0 inside,
  mask_test-or (get_or bs (k / 8) 0) (k % 8) (get_or-lt bs (k / 8) h) (omega arith) (j % 8)
      (omega arith),
)

pub is_set-replicate : (n k : ℕ) → is_set (replicate n 0) k ≡ false
unfolding is_set
is_set-replicate n k = rw get_or-replicate (
    ground (arith, check_below_sound 8 (λ k. not (mask_test 0 k)) (k % 8) zero_table (omega arith)))

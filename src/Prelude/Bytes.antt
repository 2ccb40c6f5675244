-- ===== src/Prelude/Bytes.antt =====
-- Byte strings as lists of numbers below 256, and big-endian fields of a fixed width
-- (Python's `struct` formats B, H, I and Q after ">", and `int.from_bytes(..., "big")`).
use native.Mathlib.Nat.{pow-suc, pow-succ', mul_assoc, mul-le-mul_right}
use secure_sync.Prelude.{
  ℕ, zero, suc, ◌+◌, ◌*◌, ◌/◌, ◌%◌, ◌^◌, ◌<◌, ◌≤◌, ◌≡◌, refl, sym, ap, ◌∙◌, ◌↔◌, Bool, true, false,
  ◌&&◌, ◌||◌, ◌==◌, List, [], ◌∷◌, ◌++◌, arith, length, length-append,
}

abbrev pub Bytes : Type 0
Bytes = List ℕ

abbrev pub IsBytes : Bytes → Type 0
IsBytes [] = Unit {0}
IsBytes (b ∷ bs) = (b < 256) × IsBytes bs

unfoldable pub to_be : ℕ → ℕ → Bytes
to_be zero n = []
to_be (suc w) n = to_be w (n / 256) ++ n % 256 ∷ []

from_be_acc : ℕ → Bytes → ℕ
from_be_acc acc [] = acc
from_be_acc acc (b ∷ bs) = from_be_acc (acc * 256 + b) bs

unfoldable pub from_be : Bytes → ℕ
unfolding from_be_acc
from_be bs = from_be_acc 0 bs

pub length-to_be : (w n : ℕ) → length (to_be w n) ≡ w
unfolding to_be
length-to_be zero n = refl
length-to_be (suc w) n =
    length-append (to_be w (n / 256)) (n % 256 ∷ []) ∙ omega (arith, length-to_be w (n / 256))

from_be_acc-append :
    (acc : ℕ) (bs : Bytes) (b : ℕ) → from_be_acc acc (bs ++ b ∷ []) ≡ from_be_acc acc bs * 256 + b
unfolding from_be_acc
from_be_acc-append acc [] b = refl
from_be_acc-append acc (c ∷ bs) b = from_be_acc-append (acc * 256 + c) bs b

-- A number that fits its field is read back as it was written.
pub from_be-to_be : (w n : ℕ) → n < 256 ^ w → from_be (to_be w n) ≡ n
unfolding from_be to_be
from_be-to_be zero n h = omega arith
from_be-to_be (suc w) n h =
    from_be_acc-append 0 (to_be w (n / 256)) (n % 256)
    ∙ omega (arith, from_be-to_be w (n / 256) (omega (arith, pow-suc 256 w)))

from_be_acc-lt :
    (acc : ℕ) (bs : Bytes) → IsBytes bs → from_be_acc acc bs < (acc + 1) * 256 ^ length bs
unfolding from_be_acc
from_be_acc-lt acc [] h = omega arith
from_be_acc-lt acc (b ∷ bs) h =
    let rest = from_be_acc-lt (acc * 256 + b) bs h.1 in
    let wider : (acc * 256 + b + 1) * 256 ^ length bs ≤ ((acc + 1) * 256) * 256 ^ length bs =
      mul-le-mul_right (256 ^ length bs) (omega (arith, h.0)) in
    omega (
      arith,
      rest,
      wider,
      mul_assoc (acc + 1) 256 (256 ^ length bs),
      ap (λ n. (acc + 1) * n) (pow-succ' 256 (length bs)),
    )

-- The number that a byte string writes fits its width.
pub from_be-lt : (bs : Bytes) → IsBytes bs → from_be bs < 256 ^ length bs
unfolding from_be
from_be-lt bs h = omega (arith, from_be_acc-lt 0 bs h)

pub to_be-IsBytes : (w n : ℕ) → IsBytes (to_be w n)
unfolding to_be
to_be-IsBytes zero n = tt
to_be-IsBytes (suc w) n =
    IsBytes-append (to_be w (n / 256)) (n % 256 ∷ []) (to_be-IsBytes w (n / 256)) (omega arith)
  where
    IsBytes-append : (xs ys : Bytes) → IsBytes xs → IsBytes ys → IsBytes (xs ++ ys)
    IsBytes-append [] ys h k = k
    IsBytes-append (x ∷ xs) ys h k = (h.0, IsBytes-append xs ys h.1 k)

-- Equality of byte strings as a test.
unfoldable pub beq : Bytes → Bytes → Bool
beq [] [] = true
beq [] (y ∷ ys) = false
beq (x ∷ xs) [] = false
beq (x ∷ xs) (y ∷ ys) = x == y && beq xs ys

beq_sound : (xs ys : Bytes) → beq xs ys ≡ true → xs ≡ ys
unfolding beq
beq_sound [] [] h = refl
beq_sound [] (y ∷ ys) h = cc
beq_sound (x ∷ xs) [] h = cc
beq_sound (x ∷ xs) (y ∷ ys) h = ground (arith, beq_sound xs ys)

pub beq_refl : (xs : Bytes) → beq xs xs ≡ true
unfolding beq
beq_refl [] = refl
beq_refl (x ∷ xs) = ground (arith, beq_refl xs)

pub beq_iff : (xs ys : Bytes) → (beq xs ys ≡ true) ↔ (xs ≡ ys)
beq_iff xs ys = (beq_sound xs ys, λ e. ap (beq xs) (sym e) ∙ beq_refl xs)

-- `x in xs`
abbrev pub mem : Bytes → List Bytes → Bool
mem x [] = false
mem x (y ∷ ys) = beq x y || mem x ys

-- ===== src/Frame/Nonce.antt =====
-- `derive_nonce` (replay_protection.py), and the counter that `open` reads from a nonce.
use secure_sync.Prelude.{
  ℕ, ◌^◌, ◌<◌, ◌≡◌, sym, ◌∙◌, ap, [], ◌∷◌, ◌++◌, arith, length, slice, take-append, length-append,
}
use secure_sync.Prelude.Bytes.{Bytes, to_be, from_be, length-to_be, from_be-to_be}
use secure_sync.Errors.{ok}
use secure_sync.Frame.{derive_nonce}

-- `int.from_bytes(nonce[1:9], "big")`
unfoldable pub nonce_counter : Bytes → ℕ
nonce_counter nonce = from_be (slice 1 9 nonce)

nonce_parts :
    (direction counter : ℕ) (nonce : Bytes)
    → derive_nonce direction counter ≡ ok nonce
    → (0 < counter) × (counter < 256 ^ 8) × (nonce ≡ direction ∷ to_be 8 counter ++ 0 ∷ 0 ∷ 0 ∷ [])
unfolding derive_nonce
nonce_parts direction counter nonce e = ground arith

-- The counter read from a nonce that `derive_nonce` returned is the counter that it was made from.
pub nonce_counter-derive_nonce :
    (direction counter : ℕ) (nonce : Bytes)
    → derive_nonce direction counter ≡ ok nonce
    → nonce_counter nonce ≡ counter
unfolding nonce_counter
nonce_counter-derive_nonce direction counter nonce e =
    let (_, fits, same) = nonce_parts direction counter nonce e in
    rw same (
      ap from_be (take-append (to_be 8 counter) _ 8 (sym (length-to_be 8 counter)))
      ∙ from_be-to_be 8 counter fits)

pub length-derive_nonce :
    (direction counter : ℕ) (nonce : Bytes)
    → derive_nonce direction counter ≡ ok nonce
    → length nonce ≡ 12
length-derive_nonce direction counter nonce e =
    let (_, fits, same) = nonce_parts direction counter nonce e in
    rw same
      (omega (arith, length-append (to_be 8 counter) (0 ∷ 0 ∷ 0 ∷ []), length-to_be 8 counter))

-- Two nonces are equal only if they were built from the same direction and counter.
pub derive_nonce-injective :
    (d c d' c' : ℕ) (nonce : Bytes)
    → derive_nonce d c ≡ ok nonce
    → derive_nonce d' c' ≡ ok nonce
    → (d ≡ d') × (c ≡ c')
derive_nonce-injective d c d' c' nonce e e' = (
  cc ((nonce_parts d c nonce e).2, (nonce_parts d' c' nonce e').2),
  sym (nonce_counter-derive_nonce d c nonce e) ∙ nonce_counter-derive_nonce d' c' nonce e',
)

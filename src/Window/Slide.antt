-- ===== src/Window/Slide.antt =====
-- The loop of `AntiReplayWindow._slide` (replay_protection.py).
use secure_sync.Prelude.{
  ℕ, zero, suc, ◌+◌, ◌-◌, ◌*◌, ◌≤◌, ◌<◌, ◌≡◌, refl, ◌&&◌, ◌||◌, arith, ltb, leb, length, replicate,
  length-replicate, ◌==◌,
}
use secure_sync.Prelude.Bytes.{Bytes, IsBytes}
use secure_sync.Window.{slide_bit, slide_bits}
use secure_sync.Window.Bits.{
  is_set, bit_at_lem, length-set_bit, set_bit-IsBytes, is_set-set_bit, is_set-replicate,
  replicate-IsBytes,
}

module _ (delta total : ℕ) (old : Bytes) (old_bytes : IsBytes old) where
  length-slide_bit : (i : ℕ) (new : Bytes) → length (slide_bit delta total old i new) ≡ length new
  unfolding slide_bit
  length-slide_bit i new = ground (arith, length-set_bit new (i - delta))

  slide_bit-IsBytes :
      (i : ℕ) (new : Bytes) → IsBytes new → IsBytes (slide_bit delta total old i new)
  unfolding slide_bit
  slide_bit-IsBytes i new h = ground (arith, set_bit-IsBytes new (i - delta) h)

  pub length-slide_bits :
      (rounds i : ℕ) (new : Bytes) → length (slide_bits rounds delta total old i new) ≡ length new
  unfolding slide_bits
  length-slide_bits zero i new = refl
  length-slide_bits (suc rounds) i new = ground (
    arith,
    length-slide_bits rounds (i + 1) (slide_bit delta total old i new),
    length-slide_bit i new,
  )

  pub slide_bits-IsBytes :
      (rounds i : ℕ) (new : Bytes) → IsBytes new → IsBytes (slide_bits rounds delta total old i new)
  unfolding slide_bits
  slide_bits-IsBytes zero i new h = h
  slide_bits-IsBytes (suc rounds) i new h =
      slide_bits-IsBytes rounds (i + 1) (slide_bit delta total old i new)
        (slide_bit-IsBytes i new h)

  is_set-slide_bit :
      (i : ℕ) (new : Bytes) (s : ℕ)
      → IsBytes new
      → i < total
      → total ≤ 8 * length new
      → is_set (slide_bit delta total old i new) s
        ≡ (is_set new s || (i == s + delta && is_set old (s + delta)))
  unfolding slide_bit
  is_set-slide_bit i new s h lt fits =
      ground (arith, bit_at_lem old i old_bytes, is_set-set_bit new (i - delta) s h)

  -- After the rounds from `i` to `total`, a slot is set if it was, or if one of them moved a bit there.
  is_set-slide_bits :
      (rounds i : ℕ) (new : Bytes) (s : ℕ)
      → IsBytes new
      → total ≤ 8 * length new
      → i + rounds ≡ total
      → is_set (slide_bits rounds delta total old i new) s
        ≡ (is_set new s || (leb i (s + delta) && ltb (s + delta) total && is_set old (s + delta)))
  unfolding slide_bits
  is_set-slide_bits zero i new s h fits e = ground arith
  is_set-slide_bits (suc rounds) i new s h fits e = ground (
    arith,
    is_set-slide_bit i new s h,
    length-slide_bit i new,
    is_set-slide_bits rounds (i + 1) (slide_bit delta total old i new) s
        (slide_bit-IsBytes i new h),
  )

pub is_set-slide :
    (delta total : ℕ) (old : Bytes) (s : ℕ)
    → IsBytes old
    → total ≤ 8 * length old
    → is_set (slide_bits total delta total old 0 (replicate (length old) 0)) s
      ≡ (ltb (s + delta) total && is_set old (s + delta))
is_set-slide delta total old s h fits = ground (
  arith,
  is_set-slide_bits delta total old h total 0 (replicate (length old) 0) s
      (replicate-IsBytes (length old)),
  length-replicate {A = ℕ} (length old) 0,
  is_set-replicate (length old) s,
)

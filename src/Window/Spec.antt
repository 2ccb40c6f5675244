-- ===== src/Window/Spec.antt =====
-- A specification of `AntiReplayWindow` (replay_protection.py): the whole history of accepted counters,
-- newest first.
use secure_sync.Prelude.{
  ℕ, ◌+◌, ◌<◌, max, ◌≡◌, Bool, true, false, not, ◌&&◌, List, [], ◌∷◌, arith, ltb, leb, any, ◌==◌,
  if◌then◌else◌,
}
use secure_sync.Prelude.Int.{ℤ, pos, negsuc, pos_part}

abbrev pub contains : ℕ → List ℕ → Bool
contains c = any (λ x. x == c)

unfoldable pub highest_of : List ℕ → ℕ
highest_of [] = 0
highest_of (c ∷ cs) = max c (highest_of cs)

-- A counter is fresh if it is positive, at most `window` above the highest accepted one, less than
-- `window` below it, and was never accepted.
unfoldable pub is_fresh : ℕ → List ℕ → ℤ → Bool
is_fresh window seen (pos c) =
    ltb 0 c
    && leb c (highest_of seen + window)
    && ltb (highest_of seen) (c + window)
    && not (contains c seen)
is_fresh window seen (negsuc c) = false

unfoldable pub remember : ℕ → List ℕ → ℤ → Bool × List ℕ
remember window seen c = if is_fresh window seen c then (true, pos_part c ∷ seen) else (false, seen)

-- Nothing above the highest counter was accepted.
pub contains_above : (c : ℕ) (seen : List ℕ) → highest_of seen < c → contains c seen ≡ false
unfolding highest_of
contains_above c [] h = ground arith
contains_above c (x ∷ seen) h = ground (arith, contains_above c seen)

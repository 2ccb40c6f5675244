-- ===== src/Prelude/Range.antt =====
-- A test of every number below a bound, by evaluation.
use secure_sync.Prelude.{ℕ, zero, suc, ◌<◌, ◌≡◌, Bool, true, ◌&&◌, arith}

unfoldable pub check_below : ℕ → (ℕ → Bool) → Bool
check_below zero test = true
check_below (suc bound) test = check_below bound test && test bound

pub check_below_sound :
    (bound : ℕ) (test : ℕ → Bool) (k : ℕ)
    → check_below bound test ≡ true
    → k < bound
    → test k ≡ true
unfolding check_below
check_below_sound zero test k all_pass below = absurd (omega arith)
check_below_sound (suc bound) test k all_pass below = ground (arith, check_below_sound bound test k)

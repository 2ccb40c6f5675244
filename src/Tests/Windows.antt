-- ===== src/Tests/Windows.antt =====
-- The anti-replay window's properties on a window of four counters.
use secure_sync.Prelude.{◌≡◌, refl, false, List, [], ◌∷◌}
use secure_sync.Prelude.Int.{ℤ, pos}
use secure_sync.Window.{accept, make_window, slide_bits, slide_bit}
use secure_sync.Window.Bits.{is_set, set_bit, bit_at}
use secure_sync.Window.Refinement.{accept_all, remember_all, window_refines_history}
use secure_sync.Window.NoReplay.{accepted_once}
use secure_sync.Tests.Fixtures.{new_window}

abbrev counters : List ℤ
counters = pos 1 ∷ pos 3 ∷ pos 3 ∷ pos 9 ∷ pos 6 ∷ pos 2 ∷ []

window_refines_history_example : (accept_all new_window counters).0 ≡ (remember_all 4 [] counters).0
unfolding make_window
window_refines_history_example = window_refines_history 4 new_window counters refl

accepted_once_example :
    (accept
      (accept_all (accept (accept_all new_window (pos 1 ∷ [])).1 (pos 2)).1 (pos 4 ∷ [])).1
      (pos 2)).0
    ≡ false
unfolding make_window accept_all accept is_set set_bit slide_bits slide_bit bit_at
accepted_once_example = accepted_once 4 new_window (pos 1 ∷ []) (pos 4 ∷ []) (pos 2) refl refl

-- ===== src/Window/NoReplay.antt =====
-- `accept` (replay_protection.py) on one counter, twice.
use secure_sync.Prelude.{ℕ, ◌≡◌, sym, ◌∙◌, true, false, List, [], ◌∷◌, arith}
use secure_sync.Prelude.Int.{ℤ, pos, negsuc}
use secure_sync.Errors.{ok}
use secure_sync.Window.{AntiReplayWindow, make_window, accept}
use secure_sync.Window.Spec.{contains, is_fresh, remember}
use secure_sync.Window.Refinement.{
  make_window-Represents, accept-remember, accept_all, remember_all, accept_all-remember_all,
}

-- What was remembered stays remembered.
pub contains-remember :
    (n : ℕ) (seen : List ℕ) (c : ℤ) (d : ℕ)
    → contains d seen ≡ true
    → contains d (remember n seen c).1 ≡ true
unfolding remember
contains-remember n seen c d h = ground arith

contains-remember_all :
    (n : ℕ) (seen : List ℕ) (cs : List ℤ) (d : ℕ)
    → contains d seen ≡ true
    → contains d (remember_all n seen cs).1 ≡ true
unfolding remember_all
contains-remember_all n seen [] d h = h
contains-remember_all n seen (c ∷ cs) d h =
    contains-remember_all n (remember n seen c).1 cs d (contains-remember n seen c d h)

accept-negsuc : (w : AntiReplayWindow) (d : ℕ) → (accept w (negsuc d)).0 ≡ false
unfolding accept
accept-negsuc w d = ground arith

pub remember_stale :
    (n : ℕ) (seen : List ℕ) (d : ℕ) → contains d seen ≡ true → (remember n seen (pos d)).0 ≡ false
unfolding remember is_fresh
remember_stale n seen d h = ground arith

pub remember_fresh :
    (n : ℕ) (seen : List ℕ) (d : ℕ)
    → (remember n seen (pos d)).0 ≡ true
    → contains d (remember n seen (pos d)).1 ≡ true
unfolding remember
remember_fresh n seen d h = ground arith

-- Whatever counters were offered to a new window before and after, a counter that it accepted once
-- is refused from then on.
pub accepted_once :
    (n : ℕ) (w : AntiReplayWindow) (before after : List ℤ) (c : ℤ)
    → make_window (pos n) ≡ ok w
    → let w' = (accept_all w before).1 in
      (accept w' c).0 ≡ true → (accept (accept_all (accept w' c).1 after).1 c).0 ≡ false
accepted_once n w before after (pos d) e accepted =
    let start = accept_all-remember_all n w [] before (make_window-Represents n w e) in
    let w1 = (accept_all w before).1 in
    let seen1 = (remember_all n [] before).1 in
    let hit = accept-remember n w1 seen1 (pos d) start.1 in
    let kept = remember_fresh n seen1 d (sym hit.0 ∙ accepted) in
    let w2 = (accept w1 (pos d)).1 in
    let seen2 = (remember n seen1 (pos d)).1 in
    let later = accept_all-remember_all n w2 seen2 after hit.1 in
    let w3 = (accept_all w2 after).1 in
    let seen3 = (remember_all n seen2 after).1 in
    (accept-remember n w3 seen3 (pos d) later.1).0
    ∙ remember_stale n seen3 d (contains-remember_all n seen2 after d kept)
accepted_once n w before after (negsuc d) e accepted = accept-negsuc _ d

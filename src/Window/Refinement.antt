-- ===== src/Window/Refinement.antt =====
-- `AntiReplayWindow` (replay_protection.py) against the specification of Window/Spec.
use secure_sync.Prelude.{
  ℕ, ◌+◌, ◌-◌, ◌*◌, ◌/◌, ◌≤◌, ◌<◌, ◌≡◌, refl, ◌∙◌, subst, Bool, true, false, arith, ltb, length,
  replicate, length-replicate, List, [], ◌∷◌, inl, inr, Bool-cases, ltb→lt,
}
use secure_sync.Prelude.Int.{ℤ, pos, negsuc, pos_part, neg_part}
use secure_sync.Prelude.Bytes.{IsBytes}
use secure_sync.Errors.{ok}
use secure_sync.Window.{
  AntiReplayWindow, make_window, slot_of, would_accept, slide_bits, slide, advance, accept,
}
use secure_sync.Window.Bits.{
  is_set, set_bit, length-set_bit, set_bit-IsBytes, is_set-set_bit, is_set-replicate,
  replicate-IsBytes,
}
use secure_sync.Window.Slide.{is_set-slide, length-slide_bits, slide_bits-IsBytes}
use secure_sync.Window.Spec.{contains, highest_of, is_fresh, remember, contains_above}

-- The window `w` of size `n` below `h` remembers the counters of `seen`.
pub record Tracks (n : ℕ) (w : AntiReplayWindow) (h : ℕ) (seen : List ℕ) : Type 0 where
  pub size_pos : 0 < n
  pub window_size : w.window ≡ n
  pub slot_count : w.slots ≡ 2 * n + 1
  pub highest_eq : w.highest ≡ pos h
  pub base_eq : pos_part w.base + n ≡ h + 1 + neg_part w.base
  pub bit_count : w.slots ≤ 8 * length w.bits
  pub bit_bytes : IsBytes w.bits
  pub marked : (s c : ℕ) → s < w.slots → c + n ≡ h + 1 + s → is_set w.bits s ≡ contains c seen

-- The window stands for the history `seen`.
abbrev pub Represents : ℕ → AntiReplayWindow → List ℕ → Type 0
Represents n w seen = Tracks n w (highest_of seen) seen

pub make_window-Represents :
    (n : ℕ) (w : AntiReplayWindow) → make_window (pos n) ≡ ok w → Represents n w []
unfolding make_window highest_of
make_window-Represents n w e = record {
  size_pos = ground arith;
  window_size = ground arith;
  slot_count = ground arith;
  highest_eq = ground arith;
  base_eq = ground arith;
  bit_count = ground (arith, length-replicate {A = ℕ} ((2 * n + 1 + 7) / 8) 0);
  bit_bytes = subst IsBytes bits_eq (replicate-IsBytes ((2 * n + 1 + 7) / 8));
  marked = λ s c _ _. ground (arith, bits_eq, is_set-replicate ((2 * n + 1 + 7) / 8) s);
}
  where
    bits_eq : replicate ((2 * n + 1 + 7) / 8) 0 ≡ w.bits
    bits_eq = ground arith

pub would_accept-is_fresh :
    (n : ℕ) (w : AntiReplayWindow) (seen : List ℕ) (c : ℤ)
    → Represents n w seen
    → would_accept w c ≡ is_fresh n seen c
unfolding would_accept is_fresh
would_accept-is_fresh n w seen (pos c) v =
    ground (arith, v.marked (c + n - (highest_of seen + 1)) c)
would_accept-is_fresh n w seen (negsuc c) v = ground arith

-- Sliding to a new highest counter keeps every remembered counter that is still in range.
module _ (n : ℕ) (w : AntiReplayWindow) (seen : List ℕ) (c : ℕ) (v : Represents n w seen)
    (above : highest_of seen < c) (below : c ≤ highest_of seen + n) where
  delta : ℕ
  delta = c - highest_of seen

  advance-bits :
      (advance w (pos c)).bits
      ≡ slide_bits w.slots delta w.slots w.bits 0 (replicate (length w.bits) 0)
  unfolding advance slide delta
  advance-bits = ground arith

  slid-IsBytes : IsBytes (advance w (pos c)).bits
  slid-IsBytes = rw advance-bits (
      slide_bits-IsBytes delta w.slots w.bits v.bit_bytes w.slots 0 _
        (replicate-IsBytes (length w.bits)))

  slid_length : length (advance w (pos c)).bits ≡ length w.bits
  slid_length = rw advance-bits (
      length-slide_bits delta w.slots w.bits v.bit_bytes w.slots 0 _
      ∙ length-replicate {A = ℕ} (length w.bits) 0)

  slid_mark :
      (s d : ℕ)
      → s < w.slots
      → d + n ≡ c + 1 + s
      → is_set (advance w (pos c)).bits s ≡ contains d seen
  unfolding delta
  slid_mark s d lt e = rw advance-bits (
      ground (
        arith,
        is_set-slide (c - highest_of seen) w.slots w.bits s v.bit_bytes,
        v.marked (s + (c - highest_of seen)) d,
        contains_above d seen,
      ))

  advance-slots : (advance w (pos c)).slots ≡ w.slots
  unfolding advance slide
  advance-slots = ground arith

  pub advance-Tracks : Tracks n (advance w (pos c)) c seen
  advance-Tracks = record {
    size_pos = v.size_pos;
    window_size = unfold advance slide in ground arith;
    slot_count = unfold advance slide in ground arith;
    highest_eq = unfold advance slide in ground arith;
    base_eq = unfold advance slide in ground arith;
    bit_count = omega (arith, advance-slots, slid_length);
    bit_bytes = slid-IsBytes;
    marked = λ s d lt e. slid_mark s d (omega (arith, advance-slots)) e;
  }

abbrev marked_window : AntiReplayWindow → ℕ → AntiReplayWindow
marked_window w c = record w { bits = set_bit w.bits (pos_part (slot_of w (pos c))) }

-- Marking a counter that is in range adds it to the history.
module _ (n : ℕ) (w : AntiReplayWindow) (h : ℕ) (seen : List ℕ) (c : ℕ) (v : Tracks n w h seen)
    (below : c ≤ h) (near : h < c + n) where
  slot_lem : pos_part (slot_of w (pos c)) ≡ c + n - (h + 1)
  unfolding slot_of
  slot_lem = ground arith

  mark-Tracks : Tracks n (marked_window w c) h (c ∷ seen)
  mark-Tracks = record {
    size_pos = v.size_pos;
    window_size = v.window_size;
    slot_count = v.slot_count;
    highest_eq = v.highest_eq;
    base_eq = v.base_eq;
    bit_count = omega (arith, length-set_bit w.bits (pos_part (slot_of w (pos c))), v.bit_count);
    bit_bytes = set_bit-IsBytes w.bits _ v.bit_bytes;
    marked = λ s d lt e. ground (
      arith,
      slot_lem,
      is_set-set_bit w.bits (pos_part (slot_of w (pos c))) s v.bit_bytes,
      v.marked s d,
    );
  }

module _ (n : ℕ) (w : AntiReplayWindow) (seen : List ℕ) (c : ℕ) (v : Represents n w seen)
    (fresh : is_fresh n seen (pos c) ≡ true) where
  in_range : (0 < c) × (c ≤ highest_of seen + n) × (highest_of seen < c + n)
  unfolding is_fresh
  in_range = ground arith

  mark_advanced : Tracks n (marked_window (advance w (pos c)) c) (highest_of (c ∷ seen)) (c ∷ seen)
  mark_advanced = elim (Bool-cases (ltb (highest_of seen) c)) [
    | inl above ↦
        let top : c ≡ highest_of (c ∷ seen) = unfold highest_of in ground arith in
        subst (λ h. Tracks n (marked_window (advance w (pos c)) c) h (c ∷ seen)) top
          (mark-Tracks n (advance w (pos c)) c seen c
            (advance-Tracks n w seen c v (ltb→lt _ _ above) in_range.1) (omega arith)
            (omega (arith, v.size_pos)))
    | inr under ↦
        let top : highest_of seen ≡ highest_of (c ∷ seen) = unfold highest_of in ground arith in
        let same : w ≡ advance w (pos c) = unfold advance in ground arith in
        subst (λ u. Tracks n (marked_window u c) (highest_of (c ∷ seen)) (c ∷ seen)) same
          (subst (λ h. Tracks n (marked_window w c) h (c ∷ seen)) top
            (mark-Tracks n w (highest_of seen) seen c v (ground arith) in_range.2))
  ]

-- One call of `accept` answers as the specification does, and keeps the correspondence.
pub accept-remember :
    (n : ℕ) (w : AntiReplayWindow) (seen : List ℕ) (c : ℤ)
    → Represents n w seen
    → ((accept w c).0 ≡ (remember n seen c).0) × Represents n (accept w c).1 (remember n seen c).1
unfolding accept remember
accept-remember n w seen (negsuc c) v =
    let stale : is_fresh n seen (negsuc c) ≡ false = unfold is_fresh in refl in
    rw (would_accept-is_fresh n w seen (negsuc c) v, stale) (refl, v)
accept-remember n w seen (pos c) v = elim (Bool-cases (is_fresh n seen (pos c))) [
  | inl fresh ↦
      rw (would_accept-is_fresh n w seen (pos c) v, fresh) (refl, mark_advanced n w seen c v fresh)
  | inr stale ↦ rw (would_accept-is_fresh n w seen (pos c) v, stale) (refl, v)
]

-- A sequence of calls of `accept`: the answers, in order, and the final window.
unfoldable pub accept_all : AntiReplayWindow → List ℤ → List Bool × AntiReplayWindow
accept_all w [] = ([], w)
accept_all w (c ∷ cs) =
    let (answer, w') = accept w c in
    let (answers, w'') = accept_all w' cs in (answer ∷ answers, w'')

-- The same for the specification.
unfoldable pub remember_all : ℕ → List ℕ → List ℤ → List Bool × List ℕ
remember_all n seen [] = ([], seen)
remember_all n seen (c ∷ cs) =
    let (answer, seen') = remember n seen c in
    let (answers, seen'') = remember_all n seen' cs in (answer ∷ answers, seen'')

pub accept_all-remember_all :
    (n : ℕ) (w : AntiReplayWindow) (seen : List ℕ) (cs : List ℤ)
    → Represents n w seen
    → ((accept_all w cs).0 ≡ (remember_all n seen cs).0)
      × Represents n (accept_all w cs).1 (remember_all n seen cs).1
unfolding accept_all remember_all
accept_all-remember_all n w seen [] v = (refl, v)
accept_all-remember_all n w seen (c ∷ cs) v =
    let step = accept-remember n w seen c v in
    let rest = accept_all-remember_all n (accept w c).1 (remember n seen c).1 cs step.1 in
    (ground (arith, step.0, rest.0), rest.1)

-- A new window of any positive size answers every sequence of calls of `accept`, whatever integers
-- they are given, as the specification that keeps the whole history does.
pub window_refines_history :
    (n : ℕ) (w : AntiReplayWindow) (cs : List ℤ)
    → make_window (pos n) ≡ ok w
    → (accept_all w cs).0 ≡ (remember_all n [] cs).0
window_refines_history n w cs e =
    (accept_all-remember_all n w [] cs (make_window-Represents n w e)).0

-- `accept` answers as `would_accept` does.
pub accept-would_accept : (w : AntiReplayWindow) (c : ℤ) → (accept w c).0 ≡ would_accept w c
unfolding accept
accept-would_accept w c = ground arith

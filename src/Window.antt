-- ===== src/Window.antt =====
-- `AntiReplayWindow` of src/securesync/infrastructure/networking/replay_protection.py.
-- A Python int is an integer ℤ, the bytearray a list of bytes. An index outside the bytearray, an
-- `IndexError` in Python, reads 0 and writes nothing; the invariant of Window/Refinement rules it out.
pub mod Bits
pub mod Spec
pub mod Slide
pub mod Refinement
pub mod NoReplay
use secure_sync.Prelude.{
  ℕ, zero, suc, ◌+◌, ◌-◌, ◌*◌, ◌/◌, Bool, true, false, not, ◌||◌, ◌&&◌, leb, ltb, replicate, length,
  if◌then◌else◌,
}
use secure_sync.Prelude.Int.{ℤ, pos, pos_part, leb_ℤ, ltb_ℤ, ◌+ℤ◌, ◌-ℤ◌}
use secure_sync.Prelude.Bytes.{Bytes}
use secure_sync.Errors.{Result, ok, err, replay_protection_error}
use Bits.{is_set, set_bit, bit_at}

pub record AntiReplayWindow : Type 0 where
  pub window : ℕ
  pub slots : ℕ
  pub bits : Bytes
  pub highest : ℤ
  pub base : ℤ

-- The constructor; a window that is not positive is refused.
unfoldable pub make_window : ℤ → Result AntiReplayWindow
unfolding ◌-ℤ◌
make_window window_size =
    let window = pos_part window_size in
    let slots = 2 * window + 1 in
    if leb_ℤ window_size (pos 0)
    then err replay_protection_error
    else ok (record {
      window = window;
      slots = slots;
      bits = replicate ((slots + 7) / 8) 0;
      highest = pos 0;
      base = pos 1 -ℤ window_size;
    })

unfoldable pub slot_of : AntiReplayWindow → ℤ → ℤ
unfolding ◌-ℤ◌
slot_of w counter = counter -ℤ w.base

unfoldable pub would_accept : AntiReplayWindow → ℤ → Bool
unfolding slot_of ◌+ℤ◌ ◌-ℤ◌
would_accept w counter =
    if leb_ℤ counter (pos 0)
    then false
    else if ltb_ℤ (w.highest +ℤ pos w.window) counter
    then false
    else if ltb_ℤ counter (w.highest -ℤ pos w.window +ℤ pos 1)
    then false
    else if ltb_ℤ (slot_of w counter) (pos 0) || leb_ℤ (pos w.slots) (slot_of w counter)
    then false
    else not (is_set w.bits (pos_part (slot_of w counter)))

-- One round of the loop of `_slide`: the bit at slot `i` moves down by `delta`, if it stays in range.
unfoldable pub slide_bit : ℕ → ℕ → Bytes → ℕ → Bytes → Bytes
slide_bit delta total old i new =
    if bit_at old i && leb delta i && ltb (i - delta) total then set_bit new (i - delta) else new

-- `for i in range(total)`, from `i` on, with the rounds left first.
unfoldable pub slide_bits : ℕ → ℕ → ℕ → Bytes → ℕ → Bytes → Bytes
slide_bits zero delta total old i new = new
slide_bits (suc rounds) delta total old i new =
    slide_bits rounds delta total old (i + 1) (slide_bit delta total old i new)

unfoldable pub slide : AntiReplayWindow → ℤ → AntiReplayWindow
unfolding ◌-ℤ◌
slide w new_base =
    let delta = new_base -ℤ w.base in
    if leb_ℤ delta (pos 0) then record w { base = new_base } else record w {
      bits = slide_bits w.slots (pos_part delta) w.slots w.bits 0 (replicate (length w.bits) 0);
      base = new_base;
    }

-- The window that `accept` marks the counter in: slid forward if the counter is a new highest.
unfoldable pub advance : AntiReplayWindow → ℤ → AntiReplayWindow
unfolding slide ◌+ℤ◌ ◌-ℤ◌
advance w counter =
    if ltb_ℤ w.highest counter
    then record (slide w (counter -ℤ pos w.window +ℤ pos 1)) { highest = counter }
    else w

-- `accept`: the answer and the window afterwards.
unfoldable pub accept : AntiReplayWindow → ℤ → Bool × AntiReplayWindow
unfolding would_accept advance slot_of
accept w counter =
    let w' = advance w counter in
    if would_accept w counter
    then (true, record w' { bits = set_bit w'.bits (pos_part (slot_of w' counter)) })
    else (false, w)

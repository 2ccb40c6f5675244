-- ===== src/Messages/Fields.antt =====
-- The readers `_take` and `_u16` (handshake_messages.py) at an offset of a message.
use secure_sync.Prelude.{
  ℕ, zero, suc, ◌+◌, ◌-◌, ◌≤◌, ◌<◌, ◌≡◌, refl, sym, ap, ap₂, ◌∙◌, [], ◌∷◌, ◌++◌, arith, length,
  take, drop, slice, length-append, take-append, drop-append, take-append-drop, length-drop,
  length-take, drop-add,
}
use secure_sync.Prelude.Bytes.{Bytes, IsBytes, to_be, from_be, length-to_be, from_be-to_be}
use secure_sync.Messages.{validate_version}
use secure_sync.Errors.{ok}
use secure_sync.Messages.Decode.{validate_msg_type, take_field, u16}

-- From `offset` on, the message reads `rest`.
abbrev pub At : Bytes → ℕ → Bytes → Type 0
At message offset rest = (offset ≤ length message) × (drop offset message ≡ rest)

At-bound :
    (message : Bytes) (offset : ℕ) (f rest : Bytes)
    → At message offset (f ++ rest)
    → offset + length f ≤ length message
At-bound message offset f rest h =
    omega (arith, h.0, length-drop offset message, ap length h.1, length-append f rest)

drop-At :
    (message : Bytes) (offset size : ℕ) (f rest : Bytes)
    → At message offset (f ++ rest)
    → size ≡ length f
    → At message (offset + size) rest
drop-At message offset size f rest h e = (
  omega (arith, At-bound message offset f rest h, e),
  drop-add offset size message ∙ (ap (drop size) h.1 ∙ drop-append f rest size e),
)

slice-At :
    (message : Bytes) (offset size : ℕ) (f rest : Bytes)
    → At message offset (f ++ rest)
    → size ≡ length f
    → slice offset (offset + size) message ≡ f
slice-At message offset size f rest h e =
    let width : offset + size - offset ≡ size = omega arith in
    ap₂ take width h.1 ∙ take-append f rest size e

pub take_field-At :
    (message : Bytes) (offset size : ℕ) (f rest : Bytes)
    → At message offset (f ++ rest)
    → size ≡ length f
    → (take_field message offset size ≡ ok f) × At message (offset + size) rest
unfolding take_field
take_field-At message offset size f rest h e = (
  ground (arith, slice-At message offset size f rest h e, At-bound message offset f rest h, e),
  drop-At message offset size f rest h e,
)

pub u16-At :
    (message : Bytes) (offset n : ℕ) (rest : Bytes)
    → At message offset (to_be 2 n ++ rest)
    → n < 65536
    → (u16 message offset ≡ ok n) × At message (offset + 2) rest
unfolding u16
u16-At message offset n rest h fits =
    let two = sym (length-to_be 2 n) in
    (
      ground (
        arith,
        slice-At message offset 2 (to_be 2 n) rest h two,
        At-bound message offset (to_be 2 n) rest h,
        two,
        from_be-to_be 2 n fits,
      ),
      drop-At message offset 2 (to_be 2 n) rest h two,
    )

-- The readers the other way: what they returned stands in the message.
pub take_field_parts :
    (message : Bytes) (offset size : ℕ) (f : Bytes)
    → take_field message offset size ≡ ok f
    → (length f ≡ size) × (drop offset message ≡ f ++ drop (offset + size) message)
unfolding take_field
take_field_parts message offset size f e =
    let width : offset + size - offset ≡ size = omega arith in
    let bound : offset + size ≤ length message = ground (arith, e) in
    let same : take size (drop offset message) ≡ f =
      ap (λ k. take k (drop offset message)) (sym width) ∙ ground (arith, e) in
    (
      ap length (sym same)
          ∙ omega
              (arith, length-take size (drop offset message), length-drop offset message, bound),
      sym (take-append-drop size (drop offset message))
          ∙ ap₂ ◌++◌ same (sym (drop-add offset size message)),
    )

IsBytes-drop : (n : ℕ) (bs : Bytes) → IsBytes bs → IsBytes (drop n bs)
IsBytes-drop zero bs h = h
IsBytes-drop (suc n) [] h = h
IsBytes-drop (suc n) (b ∷ bs) h = IsBytes-drop n bs h.1

IsBytes-take : (n : ℕ) (bs : Bytes) → IsBytes bs → IsBytes (take n bs)
IsBytes-take zero bs h = tt
IsBytes-take (suc n) [] h = tt
IsBytes-take (suc n) (b ∷ bs) h = (h.0, IsBytes-take n bs h.1)

-- Two bytes are the two bytes of their number.
to_be-from_be :
    (bs : Bytes) → IsBytes bs → length bs ≡ 2 → (from_be bs < 65536) × (to_be 2 (from_be bs) ≡ bs)
unfolding from_be to_be
to_be-from_be [] h e = absurd (omega arith)
to_be-from_be (a ∷ []) h e = absurd (omega arith)
to_be-from_be (a ∷ b ∷ []) h e =
    (omega (arith, h), ap₂ ◌∷◌ (omega (arith, h)) (ap₂ ◌∷◌ (omega (arith, h)) refl))
to_be-from_be (a ∷ b ∷ c ∷ bs) h e = absurd (omega arith)

pub u16_parts :
    (message : Bytes) (offset n : ℕ)
    → IsBytes message
    → u16 message offset ≡ ok n
    → (n < 65536) × (drop offset message ≡ to_be 2 n ++ drop (offset + 2) message)
unfolding u16
u16_parts message offset n b e =
    let width : offset + 2 - offset ≡ 2 = omega arith in
    let bound : offset + 2 ≤ length message = ground (arith, e) in
    let bs : Bytes = take 2 (drop offset message) in
    let same : from_be bs ≡ n =
      ap (λ k. from_be (take k (drop offset message))) (sym width) ∙ ground (arith, e) in
    let len : length bs ≡ 2 =
      omega (arith, length-take 2 (drop offset message), length-drop offset message, bound) in
    let two =
      to_be-from_be bs (IsBytes-take 2 (drop offset message) (IsBytes-drop offset message b)) len in
    (
      omega (arith, two.0, same),
      sym (take-append-drop 2 (drop offset message))
          ∙ ap₂ ◌++◌ (sym two.1 ∙ ap (to_be 2) same) (sym (drop-add offset 2 message)),
    )

-- The first two bytes of a message of type `t`.
pub type_passes : (t : ℕ) (rest : Bytes) → validate_msg_type (3 ∷ t ∷ rest) t ≡ ok tt
unfolding validate_msg_type validate_version
type_passes t rest = ground arith

-- ===== src/Stream/Framing.antt =====
-- A message that was framed, read back by `read_length_prefixed` (message_io.py).
use secure_sync.Prelude.{
  ℕ, ◌^◌, ◌<◌, ◌≡◌, refl, sym, ap, ◌∙◌, true, false, ◌++◌, length, take, drop, length-append,
  take-append, drop-append, arith, leb,
}
use mathlib.Core.List.{append_assoc}
use secure_sync.Prelude.Bytes.{Bytes, to_be, length-to_be, from_be-to_be}
use secure_sync.Errors.{Result, ok, err, oversized_message_error}
use secure_sync.Frame.{struct_pack}
use secure_sync.Stream.{
  Incoming, Ending, missing, read_exactly, read_length_prefixed, frame_message,
}

abbrev pub arriving : Bytes → Ending → Incoming
arriving bytes ending = record { arrived = bytes; ending = ending }

frame_message_parts :
    (payload frame : Bytes)
    → frame_message payload ≡ ok frame
    → (length payload < 256 ^ 4) × (frame ≡ to_be 4 (length payload) ++ payload)
unfolding frame_message struct_pack
frame_message_parts payload frame e = ground (arith, e)

read_exactly-append :
    (f rest : Bytes) (n : ℕ) (ending : Ending)
    → n ≡ length f
    → read_exactly n (arriving (f ++ rest) ending) ≡ ok (f, arriving rest ending)
unfolding read_exactly
read_exactly-append f rest n ending e =
    rw (take-append f rest n e, drop-append f rest n e) (ground (arith, length-append f rest, e))

-- What `read_length_prefixed` makes of what arrives after the prefix of a message of a length.
abbrev pub after_prefix : ℕ → ℕ → Bytes → Ending → Result (Bytes × Incoming)
after_prefix max_size size rest ending = elim (leb size max_size) [
  | true ↦ elim (leb size (length rest)) [
    | true ↦ ok (take size rest, arriving (drop size rest) ending)
    | false ↦ err (missing ending)
  ]
  | false ↦ err oversized_message_error
]

read-prefix :
    (size max_size : ℕ) (rest : Bytes) (ending : Ending)
    → size < 256 ^ 4
    → read_length_prefixed max_size (arriving (to_be 4 size ++ rest) ending)
      ≡ after_prefix max_size size rest ending
unfolding read_length_prefixed read_exactly
read-prefix size max_size rest ending fits =
    rw
      (
        read_exactly-append (to_be 4 size) rest 4 ending (sym (length-to_be 4 size)),
        from_be-to_be 4 size fits,
      )
      (ground arith)

take-prefix :
    (payload frame : Bytes)
    → frame_message payload ≡ ok frame
    → take 4 frame ≡ to_be 4 (length payload)
take-prefix payload frame e =
    ap (take 4) ((frame_message_parts payload frame e).1)
    ∙ take-append (to_be 4 (length payload)) payload 4 (sym (length-to_be 4 (length payload)))

read-whole :
    (payload rest : Bytes) (max_size : ℕ) (ending : Ending)
    → length payload < 256 ^ 4
    → read_length_prefixed max_size
        (arriving (to_be 4 (length payload) ++ (payload ++ rest)) ending)
      ≡ elim (leb (length payload) max_size) [
        | true ↦ ok (payload, arriving rest ending)
        | false ↦ err oversized_message_error
      ]
unfolding read_length_prefixed
read-whole payload rest max_size ending fits =
    rw
      (
        read_exactly-append (to_be 4 (length payload)) (payload ++ rest) 4 ending
            (sym (length-to_be 4 (length payload))),
        from_be-to_be 4 (length payload) fits,
        read_exactly-append payload rest (length payload) ending refl,
      )
      (ground arith)

-- A framed message that is not too large for the reader is read as it was sent, and what follows it is
-- left to be read; a larger one is refused as oversized. And whatever bytes arrive after the prefix of
-- the frame, many or few: if its length is too large for the reader, the message is refused as oversized;
-- else, if as many bytes have arrived, these are the message and the others are left to be read; else the
-- reader raises what a connection that ended so raises.
pub read-frame_message :
    (payload frame rest : Bytes) (max_size : ℕ) (ending : Ending)
    → frame_message payload ≡ ok frame
    → (read_length_prefixed max_size (arriving (frame ++ rest) ending)
        ≡ elim (leb (length payload) max_size) [
          | true ↦ ok (payload, arriving rest ending)
          | false ↦ err oversized_message_error
        ])
      × (read_length_prefixed max_size (arriving (take 4 frame ++ rest) ending)
          ≡ elim (leb (length payload) max_size) [
            | true ↦ elim (leb (length payload) (length rest)) [
              | true ↦ ok (take (length payload) rest, arriving (drop (length payload) rest) ending)
              | false ↦ err (missing ending)
            ]
            | false ↦ err oversized_message_error
          ])
read-frame_message payload frame rest max_size ending e =
    let (fits, same) = frame_message_parts payload frame e in
    let laid : frame ++ rest ≡ to_be 4 (length payload) ++ (payload ++ rest) =
      ap (λ z. z ++ rest) same ∙ append_assoc (to_be 4 (length payload)) payload rest in
    (
      ap (λ z. read_length_prefixed max_size (arriving z ending)) laid
          ∙ read-whole payload rest max_size ending fits,
      ap (λ z. read_length_prefixed max_size (arriving (z ++ rest) ending))
            (take-prefix payload frame e)
          ∙ read-prefix (length payload) max_size rest ending fits,
    )

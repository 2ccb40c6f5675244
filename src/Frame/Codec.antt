-- ===== src/Frame/Codec.antt =====
-- `encode_frame` and `split_frame` (replay_protection.py), one after the other.
use mathlib.Core.List.{append_assoc}
use secure_sync.Prelude.{
  ℕ, ◌+◌, ◌-◌, ◌%◌, ◌≤◌, ◌<◌, ◌≡◌, refl, sym, ◌∙◌, ap, [], ◌∷◌, ◌++◌, arith, length, length-append,
  take, drop, slice, take-append, drop-append, take-append-drop, length-drop, length-take, drop-add,
}
use secure_sync.Prelude.Bytes.{Bytes, IsBytes}
use secure_sync.Errors.{ok, err, frame_decode_error}
use secure_sync.Frame.{FrameHeader, EncryptedPayload, encode_frame, split_frame}

-- The header as its fields come back from one byte each.
abbrev pub one_byte_fields : FrameHeader → FrameHeader
one_byte_fields h = record h {
  version = h.version % 256;
  direction = h.direction % 256;
  packet_type = h.packet_type % 256;
}

abbrev frame_layout : (v d p : ℕ) (sid nonce ciphertext tag : Bytes) → Bytes
frame_layout v d p sid nonce ciphertext tag = v ∷ d ∷ p ∷ (sid ++ (nonce ++ (ciphertext ++ tag)))

-- The parts of a frame, each at its offset.
module _ (v d p : ℕ) (sid nonce ciphertext tag : Bytes) (sid_len : length sid ≡ 8)
    (nonce_len : length nonce ≡ 12) (tag_len : length tag ≡ 16) where
  length-layout : length (frame_layout v d p sid nonce ciphertext tag) ≡ 39 + length ciphertext
  length-layout = omega (
    arith,
    length-append sid (nonce ++ (ciphertext ++ tag)),
    length-append nonce (ciphertext ++ tag),
    length-append ciphertext tag,
  )

  layout_session_id : slice 3 11 (frame_layout v d p sid nonce ciphertext tag) ≡ sid
  layout_session_id = take-append sid _ 8 (sym sid_len)

  layout_nonce : slice 11 23 (frame_layout v d p sid nonce ciphertext tag) ≡ nonce
  layout_nonce =
      ap (take 12) (drop-append sid _ 8 (sym sid_len)) ∙ take-append nonce _ 12 (sym nonce_len)

  layout_body : drop 23 (frame_layout v d p sid nonce ciphertext tag) ≡ ciphertext ++ tag
  layout_body =
      ap (drop 20) (sym (append_assoc sid nonce (ciphertext ++ tag)))
      ∙ drop-append (sid ++ nonce) _ 20 (omega (arith, length-append sid nonce))

  layout_ciphertext :
      slice 23
        (length (frame_layout v d p sid nonce ciphertext tag) - 16)
        (frame_layout v d p sid nonce ciphertext tag)
      ≡ ciphertext
  layout_ciphertext = rw (layout_body) (take-append ciphertext tag _ (omega (arith, length-layout)))

  layout_tag :
      drop
        (length (frame_layout v d p sid nonce ciphertext tag) - 16)
        (frame_layout v d p sid nonce ciphertext tag)
      ≡ tag
  layout_tag =
      let at : length (frame_layout v d p sid nonce ciphertext tag) - 16 ≡ 23 + length ciphertext =
        omega (arith, length-layout) in
      rw at (
        drop-add 23 (length ciphertext) (frame_layout v d p sid nonce ciphertext tag)
        ∙ (ap (drop (length ciphertext)) layout_body ∙ drop-append ciphertext tag _ refl))

  pub split_layout :
      split_frame (frame_layout v d p sid nonce ciphertext tag)
      ≡ ok (
        record { version = v; direction = d; packet_type = p; session_id = sid },
        nonce,
        record { ciphertext = ciphertext; nonce = nonce; tag = tag },
      )
  unfolding split_frame
  split_layout =
      ground (arith, length-layout, layout_session_id, layout_nonce, layout_ciphertext, layout_tag)

encode_parts :
    (h : FrameHeader) (nonce ciphertext tag frame : Bytes)
    → encode_frame h nonce ciphertext tag ≡ ok frame
    → (length h.session_id ≡ 8)
      × (length nonce ≡ 12)
      × (length tag ≡ 16)
      × (frame
          ≡ frame_layout
              (h.version % 256)
              (h.direction % 256)
              (h.packet_type % 256)
              h.session_id
              nonce
              ciphertext
              tag)
unfolding encode_frame
encode_parts h nonce ciphertext tag frame e = ground arith

-- A frame that `encode_frame` returned is split into the nonce, ciphertext and tag it was made of and a
-- header with the same session and with the three numbers modulo 256.
pub split-encode :
    (h : FrameHeader) (nonce ciphertext tag frame : Bytes)
    → encode_frame h nonce ciphertext tag ≡ ok frame
    → split_frame frame
      ≡ ok (one_byte_fields h, nonce, record { ciphertext = ciphertext; nonce = nonce; tag = tag })
split-encode h nonce ciphertext tag frame e =
    let (sid_len, nonce_len, tag_len, same) = encode_parts h nonce ciphertext tag frame e in
    rw same (split_layout _ _ _ h.session_id nonce ciphertext tag sid_len nonce_len tag_len)

-- The parts that `split_frame` takes from a frame, put together again.
module _ (v d p : ℕ) (rest : Bytes) (enough : 36 ≤ length rest) where
  abbrev whole : Bytes
  whole = v ∷ d ∷ p ∷ rest

  part_lengths :
      (length (slice 3 11 whole) ≡ 8)
      × (length (slice 11 23 whole) ≡ 12)
      × (length (drop (length whole - 16) whole) ≡ 16)
  part_lengths = omega (
    arith,
    length-take 8 rest,
    length-take 12 (drop 8 rest),
    length-drop 8 rest,
    length-drop (length whole - 16) whole,
  )

  rejoined :
      frame_layout v d p
        (slice 3 11 whole)
        (slice 11 23 whole)
        (slice 23 (length whole - 16) whole)
        (drop (length whole - 16) whole)
      ≡ whole
  rejoined =
      let k = length whole - 16 - 23 in
      let at : length whole - 16 ≡ 23 + k = omega arith in
      let tail : drop (length whole - 16) whole ≡ drop k (drop 23 whole) =
        ap (λ (n : ℕ). drop n whole) at ∙ drop-add 23 k whole in
      let body : take k (drop 23 whole) ++ drop (length whole - 16) whole ≡ drop 20 rest =
        rw tail (take-append-drop k (drop 20 rest)) in
      let mid : take 12 (drop 8 rest) ++ drop 20 rest ≡ drop 8 rest =
        ap (◌++◌ (take 12 (drop 8 rest))) (drop-add 8 12 rest)
        ∙ take-append-drop 12 (drop 8 rest) in
      ap (λ xs. v ∷ d ∷ p ∷ (take 8 rest ++ (take 12 (drop 8 rest) ++ xs))) body
      ∙ (ap (λ xs. v ∷ d ∷ p ∷ (take 8 rest ++ xs)) mid
          ∙ ap (λ xs. v ∷ d ∷ p ∷ xs) (take-append-drop 8 rest))

-- Every byte string of at least 39 bytes is split, and encoding its parts gives it back.
pub encode-split :
    (frame : Bytes)
    → IsBytes frame
    → 39 ≤ length frame
    → (h : FrameHeader) × (nonce : Bytes) × (payload : EncryptedPayload) × (split_frame frame
        ≡ ok (h, nonce, payload))
      × (encode_frame h nonce payload.ciphertext payload.tag ≡ ok frame)
encode-split [] b enough = absurd (omega arith)
encode-split (v ∷ []) b enough = absurd (omega arith)
encode-split (v ∷ d ∷ []) b enough = absurd (omega arith)
encode-split (v ∷ d ∷ p ∷ rest) b enough = (
  record {
    version = v;
    direction = d;
    packet_type = p;
    session_id = slice 3 11 (v ∷ d ∷ p ∷ rest);
  },
  slice 11 23 (v ∷ d ∷ p ∷ rest),
  record {
    ciphertext = slice 23 (length (v ∷ d ∷ p ∷ rest) - 16) (v ∷ d ∷ p ∷ rest);
    nonce = slice 11 23 (v ∷ d ∷ p ∷ rest);
    tag = drop (length (v ∷ d ∷ p ∷ rest) - 16) (v ∷ d ∷ p ∷ rest);
  },
  unfold split_frame in ground arith,
  unfold encode_frame in
      ground (arith, part_lengths v d p rest (omega arith), rejoined v d p rest (omega arith)),
)

-- A shorter byte string is refused.
pub split_frame_short :
    (frame : Bytes) → length frame < 39 → split_frame frame ≡ err frame_decode_error
unfolding split_frame
split_frame_short frame short = ground arith

-- ===== src/Messages/Verdicts.antt =====
-- CONFIRM and FINAL of handshake_messages.py: the encoders and decoders, one after the other.
use mathlib.Core.List.{append-nil}
use secure_sync.Prelude.{
  ℕ, ◌≡◌, refl, sym, ◌∙◌, true, ◌||◌, [], ◌∷◌, ◌++◌, arith, length, length-append, ◌==◌, ==_iff,
}
use secure_sync.Prelude.Bytes.{Bytes}
use secure_sync.Errors.{ok}
use secure_sync.Messages.{validate_version, validate_bytes, encode_confirm, encode_final}
use secure_sync.Messages.Decode.{decode_confirm, decode_final}
use secure_sync.Messages.Fields.{type_passes, take_field-At}

-- A CONFIRM that `encode_confirm` returned is decoded to the signature and MAC it was made of.
pub decode_confirm-encode_confirm :
    (version : ℕ) (sig_i mac_i bytes : Bytes)
    → encode_confirm version sig_i mac_i ≡ ok bytes
    → decode_confirm bytes ≡ ok (record { version = 3; sig_i = sig_i; mac_i = mac_i; raw = bytes })
unfolding encode_confirm decode_confirm validate_version validate_bytes
decode_confirm-encode_confirm version sig_i mac_i bytes e =
    let s_len : 64 ≡ length sig_i = ground (arith, e) in
    let m_len : 32 ≡ length mac_i = ground (arith, e) in
    let whole : bytes ≡ 3 ∷ 3 ∷ (sig_i ++ mac_i) = ground (arith, e) in
    let message : Bytes = 3 ∷ 3 ∷ (sig_i ++ mac_i) in
    let (e1, h1) = take_field-At message 2 64 sig_i mac_i (omega arith, refl) s_len in
    let (e2, h2) =
      take_field-At message 66 32 mac_i [] (h1.0, h1.1 ∙ sym (append-nil mac_i)) m_len in
    let ended : (98 == length message) ≡ true =
      (==_iff _ _).1 (omega (arith, length-append sig_i mac_i, s_len, m_len)) in
    rw whole (rw (type_passes 3 (sig_i ++ mac_i), e1, e2, ended) refl)

-- A FINAL that `encode_final` returned is decoded to the status and MAC it was made of.
pub decode_final-encode_final :
    (version status : ℕ) (mac_f bytes : Bytes)
    → encode_final version status mac_f ≡ ok bytes
    → decode_final bytes ≡ ok (record { version = 3; status = status; mac_f = mac_f; raw = bytes })
unfolding encode_final decode_final validate_version validate_bytes
decode_final-encode_final version status mac_f bytes e =
    let m_len : 32 ≡ length mac_f = ground (arith, e) in
    let whole : bytes ≡ 3 ∷ 4 ∷ status ∷ mac_f = ground (arith, e) in
    let message : Bytes = 3 ∷ 4 ∷ status ∷ mac_f in
    let known : (status == 0 || status == 1) ≡ true = ground (arith, e) in
    let (e1, h1) = take_field-At message 2 1 (status ∷ []) mac_f (omega arith, refl) refl in
    let (e2, h2) =
      take_field-At message 3 32 mac_f [] (h1.0, h1.1 ∙ sym (append-nil mac_f)) m_len in
    let ended : (35 == length message) ≡ true = (==_iff _ _).1 (omega (arith, m_len)) in
    rw whole (rw (type_passes 4 (status ∷ mac_f), e1, known, e2, ended) refl)

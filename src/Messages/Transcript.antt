-- ===== src/Messages/Transcript.antt =====
-- The transcript hashes of src/securesync/infrastructure/networking/handshake_messages.py. SHA-256 is a
-- parameter.
use secure_sync.Prelude.{List, [], ◌∷◌, ◌++◌}
use secure_sync.Prelude.Bytes.{Bytes}
use secure_sync.Errors.{Result, ok, err, ◌>>=◌, handshake_validation_error}
use secure_sync.KeySchedule.{length_prefixed}

abbrev pub t1 : Bytes
t1 =
    b's' ∷ b'e' ∷ b'c' ∷ b'u' ∷ b'r' ∷ b'e' ∷ b's' ∷ b'y' ∷ b'n' ∷ b'c' ∷ b'-' ∷ b'1' ∷ b'e' ∷ b'-'
    ∷ b'h' ∷ b'a' ∷ b'n' ∷ b'd' ∷ b's' ∷ b'h' ∷ b'a' ∷ b'k' ∷ b'e' ∷ b'-' ∷ b'v' ∷ b'1' ∷ []

abbrev pub responder_sig_label : Bytes
responder_sig_label =
    b's' ∷ b'e' ∷ b'c' ∷ b'u' ∷ b'r' ∷ b'e' ∷ b's' ∷ b'y' ∷ b'n' ∷ b'c' ∷ b'-' ∷ b'1' ∷ b'e' ∷ b'-'
    ∷ b'r' ∷ b'e' ∷ b's' ∷ b'p' ∷ b'o' ∷ b'n' ∷ b'd' ∷ b'e' ∷ b'r' ∷ b'-' ∷ b's' ∷ b'i' ∷ b'g' ∷ []

abbrev pub initiator_sig_label : Bytes
initiator_sig_label =
    b's' ∷ b'e' ∷ b'c' ∷ b'u' ∷ b'r' ∷ b'e' ∷ b's' ∷ b'y' ∷ b'n' ∷ b'c' ∷ b'-' ∷ b'1' ∷ b'e' ∷ b'-'
    ∷ b'i' ∷ b'n' ∷ b'i' ∷ b't' ∷ b'i' ∷ b'a' ∷ b't' ∷ b'o' ∷ b'r' ∷ b'-' ∷ b's' ∷ b'i' ∷ b'g' ∷ []

abbrev pub m4_accept_label : Bytes
m4_accept_label =
    b's' ∷ b'e' ∷ b'c' ∷ b'u' ∷ b'r' ∷ b'e' ∷ b's' ∷ b'y' ∷ b'n' ∷ b'c' ∷ b'-' ∷ b'1' ∷ b'e' ∷ b'-'
    ∷ b'm' ∷ b'4' ∷ b'-' ∷ b'a' ∷ b'c' ∷ b'c' ∷ b'e' ∷ b'p' ∷ b't' ∷ []

abbrev pub m4_reject_label : Bytes
m4_reject_label =
    b's' ∷ b'e' ∷ b'c' ∷ b'u' ∷ b'r' ∷ b'e' ∷ b's' ∷ b'y' ∷ b'n' ∷ b'c' ∷ b'-' ∷ b'1' ∷ b'e' ∷ b'-'
    ∷ b'm' ∷ b'4' ∷ b'-' ∷ b'r' ∷ b'e' ∷ b'j' ∷ b'e' ∷ b'c' ∷ b't' ∷ []

-- `_lp`: a value too long for its prefix is a validation error here.
unfoldable pub lp : Bytes → Result Bytes
unfolding length_prefixed
lp value = elim (length_prefixed value) [
  | ok prefixed ↦ ok prefixed
  | err e ↦ err handshake_validation_error
]

-- `digest.update(_lp(part))` for each part: the bytes that are hashed after the prefix.
unfoldable pub lp_all : List Bytes → Result Bytes
unfolding lp
lp_all [] = ok []
lp_all (part ∷ parts) =
    let rest = lp_all parts in lp part >>= λ first. rest >>= λ others. ok (first ++ others)

unfoldable pub signed_responder : Bytes → Result Bytes
unfolding lp
signed_responder t2 = do label ← lp responder_sig_label; ok (label ++ t2)

unfoldable pub signed_initiator : Bytes → Result Bytes
unfolding lp
signed_initiator t2s = do label ← lp initiator_sig_label; ok (label ++ t2s)

module _ (sha256 : Bytes → Bytes) where
  -- `_hash`
  unfoldable pub hash_parts : Bytes → List Bytes → Result Bytes
  unfolding lp_all
  hash_parts prefix parts = do body ← lp_all parts; ok (sha256 (prefix ++ body))

  unfoldable pub transcript_t2 : (m1 m2body : Bytes) → Result Bytes
  unfolding hash_parts
  transcript_t2 m1 m2body = hash_parts t1 (m1 ∷ m2body ∷ [])

  unfoldable pub transcript_t2s : (t2 sig_r : Bytes) → Result Bytes
  unfolding hash_parts
  transcript_t2s t2 sig_r = hash_parts t2 (sig_r ∷ [])

  unfoldable pub transcript_t3 : (t2s mac_r : Bytes) → Result Bytes
  unfolding hash_parts
  transcript_t3 t2s mac_r = hash_parts t2s (mac_r ∷ [])

  unfoldable pub transcript_t3s : (t3 sig_i : Bytes) → Result Bytes
  unfolding hash_parts
  transcript_t3s t3 sig_i = hash_parts t3 (sig_i ∷ [])

  unfoldable pub transcript_final : (t3s mac_i : Bytes) → Result Bytes
  unfolding hash_parts
  transcript_final t3s mac_i = hash_parts t3s (mac_i ∷ [])

  unfoldable pub transcript_m4_accept : (t_final : Bytes) → Result Bytes
  unfolding hash_parts
  transcript_m4_accept t_final = hash_parts t_final (m4_accept_label ∷ [])

  unfoldable pub transcript_m4_reject : (t2s m3_raw : Bytes) → Result Bytes
  unfolding hash_parts
  transcript_m4_reject t2s m3_raw = hash_parts t2s (m3_raw ∷ m4_reject_label ∷ [])

-- ===== src/KeySchedule.antt =====
-- src/securesync/infrastructure/networking/session_keys.py: the key schedule that gives each direction of
-- a session its own key. HKDF is a parameter.
use secure_sync.Prelude.{ℕ, ◌≡◌, [], ◌∷◌, ◌++◌, length, ◌==◌, leb, if◌then◌else◌}
use secure_sync.Prelude.Bytes.{Bytes, to_be}
use secure_sync.Errors.{Result, ok, err, ◌>>=◌, ◌>>◌, guard, key_schedule_error}
use secure_sync.Frame.{role_initiator, role_responder, session_id_size}

-- HKDF with SHA-256, of the cryptography library: secret, salt, info and the length of the output.
pub record Kdf : Type 0 where
  pub derive : (secret salt info : Bytes) (size : ℕ) → Bytes

-- What the program relies on: the output has the length that was asked for.
pub record IsKdf (kdf : Kdf) : Type 0 where
  pub length-derive :
      (secret salt info : Bytes) (size : ℕ) → length (kdf.derive secret salt info size) ≡ size

abbrev pub key_size : ℕ
key_size = 32

abbrev pub master_info : Bytes
master_info =
    b's' ∷ b'e' ∷ b'c' ∷ b'u' ∷ b'r' ∷ b'e' ∷ b's' ∷ b'y' ∷ b'n' ∷ b'c' ∷ b'-' ∷ b'm' ∷ b'a' ∷ b's'
    ∷ b't' ∷ b'e' ∷ b'r' ∷ b'-' ∷ b'v' ∷ b'2' ∷ []

abbrev pub session_id_info : Bytes
session_id_info =
    b's' ∷ b'e' ∷ b'c' ∷ b'u' ∷ b'r' ∷ b'e' ∷ b's' ∷ b'y' ∷ b'n' ∷ b'c' ∷ b'-' ∷ b's' ∷ b'e' ∷ b's'
    ∷ b's' ∷ b'i' ∷ b'o' ∷ b'n' ∷ b'-' ∷ b'i' ∷ b'd' ∷ []

abbrev pub i2r_info : Bytes
i2r_info =
    b's' ∷ b'e' ∷ b'c' ∷ b'u' ∷ b'r' ∷ b'e' ∷ b's' ∷ b'y' ∷ b'n' ∷ b'c' ∷ b'-' ∷ b'i' ∷ b'n' ∷ b'i'
    ∷ b't' ∷ b'i' ∷ b'a' ∷ b't' ∷ b'o' ∷ b'r' ∷ b'-' ∷ b't' ∷ b'o' ∷ b'-' ∷ b'r' ∷ b'e' ∷ b's'
    ∷ b'p' ∷ b'o' ∷ b'n' ∷ b'd' ∷ b'e' ∷ b'r' ∷ []

abbrev pub r2i_info : Bytes
r2i_info =
    b's' ∷ b'e' ∷ b'c' ∷ b'u' ∷ b'r' ∷ b'e' ∷ b's' ∷ b'y' ∷ b'n' ∷ b'c' ∷ b'-' ∷ b'r' ∷ b'e' ∷ b's'
    ∷ b'p' ∷ b'o' ∷ b'n' ∷ b'd' ∷ b'e' ∷ b'r' ∷ b'-' ∷ b't' ∷ b'o' ∷ b'-' ∷ b'i' ∷ b'n' ∷ b'i'
    ∷ b't' ∷ b'i' ∷ b'a' ∷ b't' ∷ b'o' ∷ b'r' ∷ []

unfoldable pub length_prefixed : Bytes → Result Bytes
length_prefixed value =
    if leb (length value) 0xFFFF
    then ok (to_be 2 (length value) ++ value)
    else err key_schedule_error

-- `common` of `derive_directional_keys`
unfoldable pub common_info :
    (initiator_id responder_id session_id initiator_pub responder_pub : Bytes) → Result Bytes
unfolding length_prefixed
common_info initiator_id responder_id session_id initiator_pub responder_pub = do
  i ← length_prefixed initiator_id
  r ← length_prefixed responder_id
  i_pub ← length_prefixed initiator_pub
  r_pub ← length_prefixed responder_pub
  ok (i ++ (r ++ (session_id ++ (i_pub ++ r_pub))))

pub record SessionKeys : Type 0 where
  pub session_id : Bytes
  pub send_key : Bytes
  pub receive_key : Bytes
  pub role : ℕ

module _ (kdf : Kdf) where
  open kdf use {derive}

  -- The derivation that `derive_master` and `derive_session_id` share, under a label.
  unfoldable pub derive_labelled :
      Bytes → ℕ → (shared_secret salt initiator_pub responder_pub : Bytes) → Result Bytes
  unfolding length_prefixed
  derive_labelled label size shared_secret salt initiator_pub responder_pub = do
    l ← length_prefixed label
    i ← length_prefixed initiator_pub
    r ← length_prefixed responder_pub
    ok (derive shared_secret salt (l ++ (i ++ r)) size)

  unfoldable pub derive_master :
      (shared_secret salt initiator_pub responder_pub : Bytes) → Result Bytes
  unfolding derive_labelled
  derive_master = derive_labelled master_info key_size

  unfoldable pub derive_session_id :
      (shared_secret salt initiator_pub responder_pub : Bytes) → Result Bytes
  unfolding derive_labelled
  derive_session_id = derive_labelled session_id_info session_id_size

  unfoldable pub derive_directional_keys :
      (master initiator_id responder_id session_id initiator_pub responder_pub : Bytes)
      → Result (Bytes × Bytes)
  unfolding length_prefixed common_info
  derive_directional_keys master initiator_id responder_id session_id initiator_pub responder_pub =
      do
        guard (length session_id == session_id_size) key_schedule_error
        common ← common_info initiator_id responder_id session_id initiator_pub responder_pub
        i2r ← length_prefixed i2r_info
        r2i ← length_prefixed r2i_info
        ok (derive master [] (i2r ++ common) key_size, derive master [] (r2i ++ common) key_size)

  unfoldable pub derive_session_keys :
      (shared_secret salt initiator_id responder_id initiator_pub responder_pub : Bytes)
      → ℕ
      → Result SessionKeys
  unfolding derive_master derive_session_id derive_directional_keys
  derive_session_keys shared_secret salt initiator_id responder_id initiator_pub responder_pub
        role =
      do
        master ← derive_master shared_secret salt initiator_pub responder_pub
        session_id ← derive_session_id shared_secret salt initiator_pub responder_pub
        (i2r, r2i) ←
            derive_directional_keys master initiator_id responder_id session_id initiator_pub
              responder_pub
        (if role == role_initiator
            then ok
                (record { session_id = session_id; send_key = i2r; receive_key = r2i; role = role })
            else if role == role_responder
            then ok
                (record { session_id = session_id; send_key = r2i; receive_key = i2r; role = role })
            else err key_schedule_error)

-- ===== src/Errors.antt =====
-- The exceptions of the modelled modules, one constructor for each class that a caller can tell
-- apart, and results that may carry one.
use secure_sync.Prelude.{◌≡◌, refl, ◌⊎◌, inl, inr, Bool, true, false}

-- replay_protection.py, session_store.py, protocol.py, handshake_messages.py, x25519_safety.py,
-- session_keys.py, chunk.py, delta.py and the `struct` module's own error.
pub data Error : Type 0 where
  replay_protection_error frame_decode_error nonce_mismatch_error direction_mismatch_error : Error
  packet_type_mismatch_error timestamp_skew_error unsupported_version_error : Error
  authentication_error replay_window_rejected_error unknown_session_error : Error
  session_store_error counter_exhausted_error no_session_error session_id_collision_error
        key_error :
      Error
  invalid_header_error payload_integrity_error value_error struct_error unpack_error : Error
  handshake_decode_error handshake_validation_error low_order_point_error key_schedule_error : Error
  incompatible_baseline_error unhashed_chunk_error : Error
  handshake_key_error key_confirmation_error invalid_handshake_signature_error : Error
  peer_identity_mismatch_error handshake_deadline_error handshake_rejected_error : Error
  handshake_rejection_unverified_error handshake_state_error handshake_busy_error : Error
  handshake_rate_limited_error oversized_message_error message_read_timeout_error : Error
  incomplete_read_error chunking_error invalid_chunk_size_error conflict_not_found_error sas_error
        index_error :
      Error

-- What a call returns, or the exception that it raises.
pub data Result {ℓ} (T : Type ℓ) : Type ℓ where
  err : Error → Result T
  ok : T → Result T

infixl 5 ◌>>=◌
abbrev pub ◌>>=◌ {ℓ ℓ'} : {S : Type ℓ} {T : Type ℓ'} → Result S → (S → Result T) → Result T
err e >>= next = err e
ok s >>= next = next s

-- `if not test: raise error`
abbrev pub guard : Bool → Error → Result (Unit {0})
guard false e = err e
guard true e = ok tt

-- A statement after one that returns nothing.
infixl 5 ◌>>◌
abbrev pub ◌>>◌ {ℓ} : {T : Type ℓ} → Result (Unit {0}) → Result T → Result T
first >> second = first >>= λ u. second

-- A sequence that returned: its first part did, and the rest did on that part's value, which is handed
-- on as a variable.
pub >>=_cases {ℓ ℓ' μ} :
    {S : Type ℓ} {T : Type ℓ'} {P : Type μ} (m : Result S) (next : S → Result T) {t : T}
    → (m >>= next) ≡ ok t
    → ((s : S) → m ≡ ok s → next s ≡ ok t → P)
    → P
>>=_cases (err e) next h k = cc
>>=_cases (ok s) next h k = k s refl h

-- The same as a triple.
pub >>=-eq-ok {ℓ ℓ'} :
    {S : Type ℓ} {T : Type ℓ'} (m : Result S) (next : S → Result T) {t : T}
    → (m >>= next) ≡ ok t
    → (s : S) × (m ≡ ok s) × (next s ≡ ok t)
>>=-eq-ok m next h = >>=_cases m next h λ s e g. (s, e, g)

pub Result-cases {ℓ} :
    {A : Type ℓ} (r : Result A) → ((e : Error) × (r ≡ err e)) ⊎ ((a : A) × (r ≡ ok a))
Result-cases (ok a) = inr (a, refl)
Result-cases (err e) = inl (e, refl)

pub ok-injective {ℓ} : {A : Type ℓ} {a b : A} → ok a ≡ ok b → a ≡ b
ok-injective h = cc

pub guard_passed : (test : Bool) (e : Error) → guard test e ≡ ok tt → test ≡ true
guard_passed true e h = refl
guard_passed false e h = cc

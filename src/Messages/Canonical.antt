-- ===== src/Messages/Canonical.antt =====
-- A message of handshake_messages.py that a decoder accepts, encoded again.
use secure_sync.Prelude.{
  ℕ, ◌+◌, ◌≤◌, ◌≡◌, refl, sym, subst, ap, ap₂, ◌∙◌, true, false, ◌&&◌, [], ◌∷◌, ◌++◌, arith, length,
  drop, get_or, length-drop, ◌==◌, leb,
}
use secure_sync.Prelude.Bytes.{Bytes, IsBytes, to_be}
use secure_sync.Errors.{
  ok, guard, >>=_cases, handshake_decode_error, ok-injective, handshake_validation_error,
}
use secure_sync.Messages.{
  Introduction, HelloMessage, Unicode, validate_version, validate_port, encode_hello,
}
use secure_sync.Messages.Decode.{
  take_field, u16, validate_msg_type, decode_device_id, decode_introduction, check_introduction,
  decode_hello,
}
use secure_sync.Messages.RoundTrip.{encode_introduction-IsValid, layout, IsValid}
use secure_sync.Messages.Fields.{take_field_parts, u16_parts}

-- What a decoder that returned has read, field by field.
module _ (unicode : Unicode) (message : Bytes) (b : IsBytes message) where
  valid_id :
      (raw id : Bytes)
      → decode_device_id unicode raw ≡ ok id
      → (raw ≡ id)
        × (1 ≤ length id)
        × (length id ≤ 64)
        × (unicode.is_utf8 id ≡ true)
        × (unicode.has_control id ≡ false)
  unfolding decode_device_id
  valid_id raw id e = (
    ground (arith, e),
    ground (arith, e),
    ground (arith, e),
    ground (arith, e),
    ground (arith, e),
  )

  valid_ports :
      (m : Introduction)
      → check_introduction unicode m ≡ ok tt
      → (1 ≤ m.transfer_port)
        × (m.transfer_port ≤ 65535)
        × (1 ≤ m.manifest_port)
        × (m.manifest_port ≤ 65535)
  unfolding check_introduction validate_port
  valid_ports m e = (ground (arith, e), ground (arith, e), ground (arith, e), ground (arith, e))

  -- The fields at their offsets give the whole message from offset 2 on.
  assembled :
      (m : Introduction) (n : ℕ)
      → n ≡ length m.device_id
      → take_field message 2 32 ≡ ok m.ephemeral
      → take_field message 34 32 ≡ ok m.nonce
      → u16 message 66 ≡ ok n
      → take_field message 68 n ≡ ok m.device_id
      → take_field message (68 + n) 32 ≡ ok m.identity_public_key
      → u16 message (100 + n) ≡ ok m.transfer_port
      → u16 message (102 + n) ≡ ok m.manifest_port
      → drop 2 message ≡ layout m (drop (104 + n) message)
  assembled m n len e1 e2 e3 e4 e5 e6 e7 =
      let shift : (i j : ℕ) → i ≡ j → drop i message ≡ drop j message =
        λ i j e. ap (λ k. drop k message) e in
      (take_field_parts message 2 32 m.ephemeral e1).1
      ∙ ap (◌++◌ m.ephemeral) (
          (take_field_parts message 34 32 m.nonce e2).1
          ∙ ap (◌++◌ m.nonce) (
              (u16_parts message 66 n b e3).1
              ∙ ap₂ (λ k z. to_be 2 k ++ z) len
                  ((take_field_parts message 68 n m.device_id e4).1
                    ∙ ap (◌++◌ m.device_id) (
                        (take_field_parts message (68 + n) 32 m.identity_public_key e5).1
                        ∙ ap (◌++◌ m.identity_public_key) (
                            shift (68 + n + 32) (100 + n) (omega arith)
                            ∙ ((u16_parts message (100 + n) m.transfer_port b e6).1
                                ∙ ap (◌++◌ (to_be 2 m.transfer_port)) (
                                    shift (100 + n + 2) (102 + n) (omega arith)
                                    ∙ ((u16_parts message (102 + n) m.manifest_port b e7).1
                                        ∙ ap (◌++◌ (to_be 2 m.manifest_port))
                                            (shift (102 + n + 2) (104 + n) (omega arith))))))))))

  abbrev Reads : Introduction × ℕ → Type 0
  Reads (m, offset) =
      check_introduction unicode m ≡ ok tt
      → IsValid unicode m
        × (drop 2 message ≡ layout m (drop offset message))
        × (offset ≡ 104 + length m.device_id)

  decode_introduction_parts :
      (m : Introduction) (offset : ℕ)
      → decode_introduction unicode message ≡ ok (m, offset)
      → Reads (m, offset)
  unfolding decode_introduction
  decode_introduction_parts m offset e =
      >>=_cases (take_field message 2 32) (λ x. _) e
        λ e_i e1 r1.
          >>=_cases (take_field message 34 32) (λ x. _) r1
            λ n_i e2 r2.
              >>=_cases (u16 message 66) (λ x. _) r2
                λ n e3 r3.
                  >>=_cases (guard (leb 1 n && leb n 64) handshake_validation_error) (λ x. _) r3
                    λ u e_n r4.
                      >>=_cases (take_field message 68 n) (λ x. _) r4
                        λ raw e4 r5.
                          >>=_cases (decode_device_id unicode raw) (λ x. _) r5
                            λ id ed r6.
                              >>=_cases (take_field message (68 + n) 32) (λ x. _) r6
                                λ key e5 r7.
                                  >>=_cases (u16 message (100 + n)) (λ x. _) r7
                                    λ port e6 r8.
                                      >>=_cases (u16 message (102 + n)) (λ x. _) r8
                                        λ port' e7 r9. subst Reads (ok-injective r9) (
                                          read e_i n_i n raw id key port port' e1 e2 e3 e4 ed e5 e6
                                            e7)
    where
      read :
          (e_i n_i : Bytes) (n : ℕ) (raw id key : Bytes) (port port' : ℕ)
          → take_field message 2 32 ≡ ok e_i
          → take_field message 34 32 ≡ ok n_i
          → u16 message 66 ≡ ok n
          → take_field message 68 n ≡ ok raw
          → decode_device_id unicode raw ≡ ok id
          → take_field message (68 + n) 32 ≡ ok key
          → u16 message (100 + n) ≡ ok port
          → u16 message (102 + n) ≡ ok port'
          → Reads (
            record {
              ephemeral = e_i;
              nonce = n_i;
              device_id = id;
              identity_public_key = key;
              transfer_port = port;
              manifest_port = port';
            },
            104 + n,
          )
      read e_i n_i n raw id key port port' e1 e2 e3 e4 ed e5 e6 e7 checked =
          let m : Introduction = record {
            ephemeral = e_i;
            nonce = n_i;
            device_id = id;
            identity_public_key = key;
            transfer_port = port;
            manifest_port = port';
          } in
          let (same_id, low, high, utf8, clean) = valid_id raw id ed in
          let (t_low, t_high, m_low, m_high) = valid_ports m checked in
          let len : n ≡ length id =
            sym (take_field_parts message 68 n raw e4).0 ∙ ap length same_id in
          (
            record {
              ephemeral_size = sym (take_field_parts message 2 32 e_i e1).0;
              nonce_length = sym (take_field_parts message 34 32 n_i e2).0;
              key_length = sym (take_field_parts message (68 + n) 32 key e5).0;
              transfer_low = t_low;
              transfer_high = t_high;
              manifest_low = m_low;
              manifest_high = m_high;
              id_low = low;
              id_high = high;
              id_utf8 = utf8;
              id_clean = clean;
            },
            assembled m n len e1 e2 e3 (e4 ∙ ap ok same_id) e5 e6 e7,
            ap (λ k. 104 + k) len,
          )

type_parts :
    (message : Bytes) (t : ℕ)
    → validate_msg_type message t ≡ ok tt
    → (message ≡ 3 ∷ t ∷ drop 2 message) × (get_or message 0 0 ≡ 3)
unfolding validate_msg_type validate_version
type_parts [] t e = ground (arith, e)
type_parts (v ∷ []) t e = ground (arith, e)
type_parts (v ∷ w ∷ rest) t e = (ground (arith, e), ground (arith, e))

length_zero : (bs : Bytes) → length bs ≡ 0 → bs ≡ []
length_zero [] h = refl
length_zero (b ∷ bs) h = ground (arith, h)

drop-length : (bs : Bytes) (n : ℕ) → n ≡ length bs → drop n bs ≡ []
drop-length bs n e = length_zero (drop n bs) (omega (arith, length-drop n bs, e))

ended_at : (a b : ℕ) → guard (a == b) handshake_decode_error ≡ ok tt → a ≡ b
ended_at a b h = ground (arith, h)

module _ (unicode : Unicode) where
  -- Only one message decodes to given fields: a HELLO that `decode_hello` accepts is the one that
  -- `encode_hello` gives for what was decoded. A message is a sequence of bytes.
  pub encode_hello-decode_hello :
      (message : Bytes) (h : HelloMessage)
      → IsBytes message
      → decode_hello unicode message ≡ ok h
      → (encode_hello unicode h.version h.introduction ≡ ok message) × (h.raw ≡ message)
  unfolding decode_hello encode_hello
  encode_hello-decode_hello message h b e =
      >>=_cases (validate_msg_type message 1) (λ x. _) e
        λ u e1 r1.
          >>=_cases (decode_introduction unicode message) (λ x. _) r1
            λ (m, offset) e2 r2.
              >>=_cases (guard (offset == length message) handshake_decode_error) (λ x. _) r2
                λ u' e3 r3.
                  >>=_cases (check_introduction unicode m) (λ x. _) r3
                    λ u'' e4 r4.
                      let (v, laid, offset_eq) =
                        decode_introduction_parts unicode message b m offset e2 e4 in
                      let (typed, version) = type_parts message 1 e1 in
                      let ended : offset ≡ length message = ended_at offset (length message) e3 in
                      let whole : message ≡ 3 ∷ 1 ∷ layout m [] =
                        typed
                        ∙ ap (λ z. 3 ∷ 1 ∷ z)
                            (laid ∙ ap (layout m) (drop-length message offset ended)) in
                      rw (sym (ok-injective r4)) (
                        rw version (encode_introduction-IsValid unicode 1 m v ∙ ap ok (sym whole)),
                        refl,
                      )

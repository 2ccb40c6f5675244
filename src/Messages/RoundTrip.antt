-- ===== src/Messages/RoundTrip.antt =====
-- The encoders and decoders of handshake_messages.py, one after the other.
use mathlib.Core.List.{append-nil, append_assoc}
use secure_sync.Prelude.{
  ℕ, ◌+◌, ◌≤◌, ◌≡◌, refl, sym, subst, ap, ◌∙◌, true, false, ◌&&◌, [], ◌∷◌, ◌++◌, arith, length,
  take, length-append, take-append, ◌==◌, leb, ==_iff,
}
use secure_sync.Prelude.Bytes.{Bytes, to_be, length-to_be}
use secure_sync.Errors.{ok}
use secure_sync.Curve.{check_public_key}
use secure_sync.Messages.{
  Introduction, Unicode, validate_version, validate_bytes, validate_port, validate_device_id,
  encode_introduction, encode_hello, encode_reply_body, encode_reply,
}
use secure_sync.Messages.Decode.{
  decode_device_id, decode_introduction, check_introduction, decode_hello, decode_reply,
}
use secure_sync.Messages.Fields.{At, type_passes, take_field-At, u16-At}

-- The bytes of the shared fields, in order.
abbrev pub layout : Introduction → Bytes → Bytes
layout m rest =
    m.ephemeral
    ++ (m.nonce
        ++ (to_be 2 (length m.device_id)
            ++ (m.device_id
                ++ (m.identity_public_key
                    ++ (to_be 2 m.transfer_port ++ (to_be 2 m.manifest_port ++ rest))))))

-- Fields that the encoders accept.
pub record IsValid (unicode : Unicode) (m : Introduction) : Type 0 where
  pub ephemeral_size : 32 ≡ length m.ephemeral
  pub nonce_length : 32 ≡ length m.nonce
  pub key_length : 32 ≡ length m.identity_public_key
  pub transfer_low : 1 ≤ m.transfer_port
  pub transfer_high : m.transfer_port ≤ 65535
  pub manifest_low : 1 ≤ m.manifest_port
  pub manifest_high : m.manifest_port ≤ 65535
  pub id_low : 1 ≤ length m.device_id
  pub id_high : length m.device_id ≤ 64
  pub id_utf8 : unicode.is_utf8 m.device_id ≡ true
  pub id_clean : unicode.has_control m.device_id ≡ false

move : (message : Bytes) (a b : ℕ) (rest : Bytes) → a ≡ b → At message a rest → At message b rest
move message a b rest e h = subst (λ k. At message k rest) e h

module _ (unicode : Unicode) where
  pub encode_introduction_parts :
      (version msg_type : ℕ) (m : Introduction) (bytes : Bytes)
      → encode_introduction unicode version msg_type m ≡ ok bytes
      → (version ≡ 3) × IsValid unicode m × (bytes ≡ 3 ∷ msg_type ∷ layout m [])
  unfolding encode_introduction validate_version validate_bytes validate_port validate_device_id
  encode_introduction_parts version msg_type m bytes e = (
    ground (arith, e),
    record {
      ephemeral_size = ground (arith, e);
      nonce_length = ground (arith, e);
      key_length = ground (arith, e);
      transfer_low = ground (arith, e);
      transfer_high = ground (arith, e);
      manifest_low = ground (arith, e);
      manifest_high = ground (arith, e);
      id_low = ground (arith, e);
      id_high = ground (arith, e);
      id_utf8 = ground (arith, e);
      id_clean = ground (arith, e);
    },
    ground (arith, e, append-nil (to_be 2 m.manifest_port)),
  )

  pub encode_introduction-IsValid :
      (t : ℕ) (m : Introduction)
      → IsValid unicode m
      → encode_introduction unicode 3 t m ≡ ok (3 ∷ t ∷ layout m [])
  unfolding encode_introduction validate_version validate_bytes validate_port validate_device_id
  encode_introduction-IsValid t m v = ground (
    arith,
    v.ephemeral_size,
    v.nonce_length,
    v.key_length,
    v.transfer_low,
    v.transfer_high,
    v.manifest_low,
    v.manifest_high,
    v.id_low,
    v.id_high,
    v.id_utf8,
    v.id_clean,
    append-nil (to_be 2 m.manifest_port),
  )

  length_passes :
      (m : Introduction)
      → IsValid unicode m
      → (leb 1 (length m.device_id) && leb (length m.device_id) 64) ≡ true
  length_passes m v = ground (arith, v.id_low, v.id_high)

  id_passes :
      (m : Introduction) → IsValid unicode m → decode_device_id unicode m.device_id ≡ ok m.device_id
  unfolding decode_device_id
  id_passes m v = ground (arith, v.id_low, v.id_high, v.id_utf8, v.id_clean)

  pub decode_introduction-At :
      (m : Introduction) (message rest : Bytes)
      → IsValid unicode m
      → At message 2 (layout m rest)
      → (decode_introduction unicode message ≡ ok (m, 104 + length m.device_id))
        × At message (104 + length m.device_id) rest
  unfolding decode_introduction
  decode_introduction-At m message rest v h =
      let n = length m.device_id in
      let (e1, h1) = take_field-At message 2 32 m.ephemeral _ h v.ephemeral_size in
      let (e2, h2) = take_field-At message 34 32 m.nonce _ h1 v.nonce_length in
      let (e3, h3) = u16-At message 66 n _ h2 (omega (arith, v.id_high)) in
      let (e4, h4) = take_field-At message 68 n m.device_id _ h3 refl in
      let (e5, h5) = take_field-At message (68 + n) 32 m.identity_public_key _ h4 v.key_length in
      let h5' : At message (100 + n)
          (to_be 2 m.transfer_port ++ (to_be 2 m.manifest_port ++ rest)) =
        move message (68 + n + 32) (100 + n) _ (omega arith) h5 in
      let (e6, h6) =
        u16-At message (100 + n) m.transfer_port _ h5' (omega (arith, v.transfer_high)) in
      let h6' : At message (102 + n) (to_be 2 m.manifest_port ++ rest) =
        move message (100 + n + 2) (102 + n) _ (omega arith) h6 in
      let (e7, h7) =
        u16-At message (102 + n) m.manifest_port rest h6' (omega (arith, v.manifest_high)) in
      (
        rw (e1, e2, e3, e4, e5, e6, e7, length_passes m v, id_passes m v) refl,
        move message (102 + n + 2) (104 + n) rest (omega arith) h7,
      )

  checks_pass :
      (m : Introduction)
      → IsValid unicode m
      → check_public_key m.ephemeral ≡ ok tt
      → check_introduction unicode m ≡ ok tt
  unfolding check_introduction validate_port
  checks_pass m v key =
      ground (arith, v.transfer_low, v.transfer_high, v.manifest_low, v.manifest_high, key)

  pub length-layout :
      (m : Introduction) (rest : Bytes)
      → IsValid unicode m
      → length (layout m rest) ≡ 102 + length m.device_id + length rest
  length-layout m rest v =
      let t = to_be 2 m.transfer_port in
      let p = to_be 2 m.manifest_port in
      omega (
        arith,
        length-append m.ephemeral (
            m.nonce
            ++ (to_be 2 (length m.device_id)
                ++ (m.device_id ++ (m.identity_public_key ++ (t ++ (p ++ rest)))))),
        length-append m.nonce (
            to_be 2 (length m.device_id)
            ++ (m.device_id ++ (m.identity_public_key ++ (t ++ (p ++ rest))))),
        length-append (to_be 2 (length m.device_id))
            (m.device_id ++ (m.identity_public_key ++ (t ++ (p ++ rest)))),
        length-append m.device_id (m.identity_public_key ++ (t ++ (p ++ rest))),
        length-append m.identity_public_key (t ++ (p ++ rest)),
        length-append t (p ++ rest),
        length-append p rest,
        length-to_be 2 (length m.device_id),
        length-to_be 2 m.transfer_port,
        length-to_be 2 m.manifest_port,
        v.ephemeral_size,
        v.nonce_length,
        v.key_length,
      )

  decode_hello-layout :
      (m : Introduction)
      → IsValid unicode m
      → check_public_key m.ephemeral ≡ ok tt
      → decode_hello unicode (3 ∷ 1 ∷ layout m [])
        ≡ ok (record { version = 3; introduction = m; raw = 3 ∷ 1 ∷ layout m [] })
  unfolding decode_hello
  decode_hello-layout m v key =
      let decoded = (decode_introduction-At m (3 ∷ 1 ∷ layout m []) [] v (omega arith, refl)).0 in
      let ended : (104 + length m.device_id == length (3 ∷ 1 ∷ layout m [])) ≡ true =
        (==_iff _ _).1 (omega (arith, length-layout m [] v)) in
      rw (type_passes 1 (layout m []), decoded, ended, checks_pass m v key) refl

  -- A HELLO that `encode_hello` returned is decoded to the fields it was made of, in version 3, if its
  -- ephemeral key is a public key that `check_public_key` accepts.
  pub decode_hello-encode_hello :
      (version : ℕ) (m : Introduction) (bytes : Bytes)
      → encode_hello unicode version m ≡ ok bytes
      → check_public_key m.ephemeral ≡ ok tt
      → decode_hello unicode bytes ≡ ok (record { version = 3; introduction = m; raw = bytes })
  unfolding encode_hello
  decode_hello-encode_hello version m bytes e key =
      let (same_version, v, same) = encode_introduction_parts version 1 m bytes e in
      rw same (decode_hello-layout m v key)

  layout-append : (m : Introduction) (xs ys : Bytes) → layout m xs ++ ys ≡ layout m (xs ++ ys)
  layout-append m xs ys = simp append_assoc refl

  decode_reply-layout :
      (m : Introduction) (sig_r mac_r : Bytes)
      → IsValid unicode m
      → 64 ≡ length sig_r
      → 32 ≡ length mac_r
      → check_public_key m.ephemeral ≡ ok tt
      → decode_reply unicode (3 ∷ 2 ∷ layout m (sig_r ++ mac_r))
        ≡ ok (record {
          version = 3;
          introduction = m;
          sig_r = sig_r;
          mac_r = mac_r;
          body = 3 ∷ 2 ∷ layout m [];
          raw = 3 ∷ 2 ∷ layout m (sig_r ++ mac_r);
        })
  unfolding decode_reply
  decode_reply-layout m sig_r mac_r v s_len m_len key =
      let message : Bytes = 3 ∷ 2 ∷ layout m (sig_r ++ mac_r) in
      let n = length m.device_id in
      let (decoded, h) = decode_introduction-At m message (sig_r ++ mac_r) v (omega arith, refl) in
      let (e1, h1) = take_field-At message (104 + n) 64 sig_r mac_r h s_len in
      let (e2, h2) =
        take_field-At message (104 + n + 64) 32 mac_r [] (h1.0, h1.1 ∙ sym (append-nil mac_r))
          m_len in
      let ended : (104 + n + 64 + 32 == length message) ≡ true = (==_iff _ _).1 (
        omega
          (arith, length-layout m (sig_r ++ mac_r) v, length-append sig_r mac_r, s_len, m_len)) in
      let body : take (104 + n) message ≡ 3 ∷ 2 ∷ layout m [] =
        ap (take (104 + n)) (ap (λ z. 3 ∷ 2 ∷ z) (sym (layout-append m [] (sig_r ++ mac_r))))
        ∙ take-append (3 ∷ 2 ∷ layout m []) (sig_r ++ mac_r) (104 + n)
            (omega (arith, length-layout m [] v)) in
      rw
        (
          type_passes 2 (layout m (sig_r ++ mac_r)),
          decoded,
          e1,
          e2,
          ended,
          checks_pass m v key,
          body,
        )
        refl

  -- A REPLY that `encode_reply` returned is decoded to the fields, signature and MAC it was made of, in
  -- version 3, with the body that `encode_reply_body` gives, if its ephemeral key is acceptable.
  pub decode_reply-encode_reply :
      (version : ℕ) (m : Introduction) (sig_r mac_r body bytes : Bytes)
      → encode_reply_body unicode version m ≡ ok body
      → encode_reply unicode version m sig_r mac_r ≡ ok bytes
      → check_public_key m.ephemeral ≡ ok tt
      → decode_reply unicode bytes
        ≡ ok (record {
          version = 3;
          introduction = m;
          sig_r = sig_r;
          mac_r = mac_r;
          body = body;
          raw = bytes;
        })
  unfolding encode_reply encode_reply_body validate_bytes
  decode_reply-encode_reply version m sig_r mac_r body bytes eb e key =
      let (same_version, v, same) = encode_introduction_parts version 2 m body eb in
      let s_len : 64 ≡ length sig_r = ground (arith, e) in
      let m_len : 32 ≡ length mac_r = ground (arith, e) in
      let whole : bytes ≡ body ++ (sig_r ++ mac_r) = ground (arith, e, eb) in
      let laid : bytes ≡ 3 ∷ 2 ∷ layout m (sig_r ++ mac_r) =
        whole
        ∙ (ap (λ z. z ++ (sig_r ++ mac_r)) same
            ∙ ap (λ z. 3 ∷ 2 ∷ z) (layout-append m [] (sig_r ++ mac_r))) in
      rw (laid, same) (decode_reply-layout m sig_r mac_r v s_len m_len key)

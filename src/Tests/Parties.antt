-- ===== src/Tests/Parties.antt =====
-- Two devices with transparent primitives, and the messages of their handshake.
use secure_sync.Prelude.{
  ℕ, refl, true, false, none, some, [], ◌∷◌, ◌++◌, replicate, length-replicate, inl, inr, arith,
}
use secure_sync.Prelude.Bytes.{Bytes, beq}
use secure_sync.Errors.{ok}
use secure_sync.Curve.{check_public_key, check_shared_secret}
use secure_sync.KeySchedule.{IsKdf}
use secure_sync.Stream.{closed}
use secure_sync.Handshake.{Primitives, HandshakeV3, Ephemeral}
use secure_sync.Handshake.World.{World}
use secure_sync.Handshake.Honest.{Works, IsReady}
use secure_sync.Handshake.Opening.{HonestPair}

abbrev pub plain : Primitives
plain = record {
  unicode = record { is_utf8 = λ b. true; has_control = λ b. false };
  kdf = record { derive = λ secret salt info size. replicate size 7 };
  sha256 = λ b. replicate 32 1;
  hmac_sha256 = λ k m. replicate 32 2;
  derive_shared_secret = λ k e. ok (replicate 32 9);
  sign = λ k m. replicate 64 3;
  verify = λ k m s. beq s (replicate 64 3);
}

pub plain_kdf-IsKdf : IsKdf plain.kdf
plain_kdf-IsKdf = record {
  length-derive = λ secret salt info size. length-replicate {A = ℕ} size 7;
}

plain-Works : Works plain
plain-Works = record {
  kdf_law = plain_kdf-IsKdf;
  length-sha256 = λ b. length-replicate {A = ℕ} 32 1;
  length-hmac = λ k m. length-replicate {A = ℕ} 32 2;
  length-sign = λ k m. length-replicate {A = ℕ} 64 3;
}

abbrev pub caller : HandshakeV3
caller = record {
  own_device_id = 65 ∷ [];
  own_transfer_port = 8000;
  own_manifest_port = 8001;
  identity_public_key = replicate 32 4;
  identity_private_key = replicate 32 10;
  max_half_open = 2;
}

abbrev pub callee : HandshakeV3
callee = record caller {
  own_device_id = 66 ∷ [];
  identity_public_key = replicate 32 5;
  identity_private_key = replicate 32 11;
}

abbrev pub caller_keys : Ephemeral
caller_keys = record {
  private_key = replicate 32 12;
  public_key = replicate 32 6;
  nonce = replicate 32 13;
}

abbrev pub callee_keys : Ephemeral
callee_keys = record {
  private_key = replicate 32 14;
  public_key = replicate 32 8;
  nonce = replicate 32 15;
}

caller-IsReady : IsReady plain caller caller_keys
unfolding check_public_key beq
caller-IsReady = record {
  valid = record {
    ephemeral_size = refl;
    nonce_length = refl;
    key_length = refl;
    transfer_low = omega arith;
    transfer_high = omega arith;
    manifest_low = omega arith;
    manifest_high = omega arith;
    id_low = omega arith;
    id_high = omega arith;
    id_utf8 = refl;
    id_clean = refl;
  };
  public_ok = refl;
  signs = λ m. refl;
}

callee-IsReady : IsReady plain callee callee_keys
unfolding check_public_key beq
callee-IsReady = record {
  valid = record {
    ephemeral_size = refl;
    nonce_length = refl;
    key_length = refl;
    transfer_low = omega arith;
    transfer_high = omega arith;
    manifest_low = omega arith;
    manifest_high = omega arith;
    id_low = omega arith;
    id_high = omega arith;
    id_utf8 = refl;
    id_clean = refl;
  };
  public_ok = refl;
  signs = λ m. refl;
}

pub two_devices : HonestPair
unfolding check_shared_secret beq
two_devices = record {
  p = plain;
  i = caller;
  r = callee;
  eph_i = caller_keys;
  eph_r = callee_keys;
  pin_i = none;
  pin_r = some (replicate 32 4);
  works = plain-Works;
  ready_i = caller-IsReady;
  ready_r = callee-IsReady;
  ids_differ = refl;
  keys_differ = refl;
  shared = replicate 32 9;
  shared_i = refl;
  shared_r = refl;
  shared_ok = refl;
  pin_of_r = inl refl;
  pin_of_i = inr refl;
}

-- The caller's message 1, the callee's message 2, and messages 3 and 4.
abbrev pub message_1 : Bytes
message_1 =
    3
    ∷ 1
    ∷ (replicate 32 6
        ++ (replicate 32 13 ++ (0 ∷ 1 ∷ 65 ∷ (replicate 32 4 ++ (31 ∷ 64 ∷ 31 ∷ 65 ∷ [])))))

abbrev pub message_2 : Bytes
message_2 =
    3
    ∷ 2
    ∷ (replicate 32 8
        ++ (replicate 32 15
            ++ (0
                ∷ 1
                ∷ 66
                ∷ (replicate 32 5 ++ (31 ∷ 64 ∷ 31 ∷ 65 ∷ (replicate 64 3 ++ replicate 32 2))))))

abbrev pub message_3 : Bytes
message_3 = 3 ∷ 3 ∷ (replicate 64 3 ++ replicate 32 2)

abbrev pub message_4 : Bytes
message_4 = 3 ∷ 4 ∷ 0 ∷ replicate 32 2

-- A connection on which the given bytes arrive before it is closed, with nobody trusted but a third device.
abbrev pub start : {S : Type 0} → S → Bytes → World S
start state bytes = record {
  state = state;
  trusted = (67 ∷ [], replicate 32 16) ∷ [];
  incoming = record { arrived = bytes; ending = closed };
  sent = [];
  checks = [];
  drains = [];
  half_open = 0;
  recorded = [];
}

-- ===== src/Curve.antt =====
-- src/securesync/infrastructure/networking/x25519_safety.py: degenerate X25519 public keys and shared
-- secrets.
use secure_sync.Prelude.{ℕ, not, List, [], ◌∷◌, replicate, length, ◌==◌}
use secure_sync.Prelude.Bytes.{Bytes, beq, mem}
use secure_sync.Errors.{Result, ◌>>◌, guard, low_order_point_error}

abbrev pub x25519_key_size : ℕ
x25519_key_size = 32

abbrev pub low_order_points : List Bytes
low_order_points =
    (0x00 ∷ 0x00 ∷ 0x00 ∷ 0x00 ∷ 0x00 ∷ 0x00 ∷ 0x00 ∷ 0x00 ∷ 0x00 ∷ 0x00 ∷ 0x00 ∷ 0x00 ∷ 0x00 ∷ 0x00
      ∷ 0x00 ∷ 0x00 ∷ 0x00 ∷ 0x00 ∷ 0x00 ∷ 0x00 ∷ 0x00 ∷ 0x00 ∷ 0x00 ∷ 0x00 ∷ 0x00 ∷ 0x00 ∷ 0x00
      ∷ 0x00 ∷ 0x00 ∷ 0x00 ∷ 0x00 ∷ 0x00 ∷ [])
    ∷ (0x01 ∷ 0x00 ∷ 0x00 ∷ 0x00 ∷ 0x00 ∷ 0x00 ∷ 0x00 ∷ 0x00 ∷ 0x00 ∷ 0x00 ∷ 0x00 ∷ 0x00 ∷ 0x00
        ∷ 0x00 ∷ 0x00 ∷ 0x00 ∷ 0x00 ∷ 0x00 ∷ 0x00 ∷ 0x00 ∷ 0x00 ∷ 0x00 ∷ 0x00 ∷ 0x00 ∷ 0x00 ∷ 0x00
        ∷ 0x00 ∷ 0x00 ∷ 0x00 ∷ 0x00 ∷ 0x00 ∷ 0x00 ∷ [])
    ∷ (0xe0 ∷ 0xeb ∷ 0x7a ∷ 0x7c ∷ 0x3b ∷ 0x41 ∷ 0xb8 ∷ 0xae ∷ 0x16 ∷ 0x56 ∷ 0xe3 ∷ 0xfa ∷ 0xf1
        ∷ 0x9f ∷ 0xc4 ∷ 0x6a ∷ 0xda ∷ 0x09 ∷ 0x8d ∷ 0xeb ∷ 0x9c ∷ 0x32 ∷ 0xb1 ∷ 0xfd ∷ 0x86 ∷ 0x62
        ∷ 0x05 ∷ 0x16 ∷ 0x5f ∷ 0x49 ∷ 0xb8 ∷ 0x00 ∷ [])
    ∷ (0x5f ∷ 0x9c ∷ 0x95 ∷ 0xbc ∷ 0xa3 ∷ 0x50 ∷ 0x8c ∷ 0x24 ∷ 0xb1 ∷ 0xd0 ∷ 0xb1 ∷ 0x55 ∷ 0x9c
        ∷ 0x83 ∷ 0xef ∷ 0x5b ∷ 0x04 ∷ 0x44 ∷ 0x5c ∷ 0xc4 ∷ 0x58 ∷ 0x1c ∷ 0x8e ∷ 0x86 ∷ 0xd8 ∷ 0x22
        ∷ 0x4e ∷ 0xdd ∷ 0xd0 ∷ 0x9f ∷ 0x11 ∷ 0x57 ∷ [])
    ∷ (0xec ∷ 0xff ∷ 0xff ∷ 0xff ∷ 0xff ∷ 0xff ∷ 0xff ∷ 0xff ∷ 0xff ∷ 0xff ∷ 0xff ∷ 0xff ∷ 0xff
        ∷ 0xff ∷ 0xff ∷ 0xff ∷ 0xff ∷ 0xff ∷ 0xff ∷ 0xff ∷ 0xff ∷ 0xff ∷ 0xff ∷ 0xff ∷ 0xff ∷ 0xff
        ∷ 0xff ∷ 0xff ∷ 0xff ∷ 0xff ∷ 0xff ∷ 0x7f ∷ [])
    ∷ (0xed ∷ 0xff ∷ 0xff ∷ 0xff ∷ 0xff ∷ 0xff ∷ 0xff ∷ 0xff ∷ 0xff ∷ 0xff ∷ 0xff ∷ 0xff ∷ 0xff
        ∷ 0xff ∷ 0xff ∷ 0xff ∷ 0xff ∷ 0xff ∷ 0xff ∷ 0xff ∷ 0xff ∷ 0xff ∷ 0xff ∷ 0xff ∷ 0xff ∷ 0xff
        ∷ 0xff ∷ 0xff ∷ 0xff ∷ 0xff ∷ 0xff ∷ 0x7f ∷ [])
    ∷ (0xee ∷ 0xff ∷ 0xff ∷ 0xff ∷ 0xff ∷ 0xff ∷ 0xff ∷ 0xff ∷ 0xff ∷ 0xff ∷ 0xff ∷ 0xff ∷ 0xff
        ∷ 0xff ∷ 0xff ∷ 0xff ∷ 0xff ∷ 0xff ∷ 0xff ∷ 0xff ∷ 0xff ∷ 0xff ∷ 0xff ∷ 0xff ∷ 0xff ∷ 0xff
        ∷ 0xff ∷ 0xff ∷ 0xff ∷ 0xff ∷ 0xff ∷ 0x7f ∷ [])
    ∷ []

unfoldable pub check_public_key : Bytes → Result (Unit {0})
check_public_key public_key =
    guard (length public_key == x25519_key_size) low_order_point_error
    >> guard (not (mem public_key low_order_points)) low_order_point_error

unfoldable pub check_shared_secret : Bytes → Result (Unit {0})
check_shared_secret shared_secret =
    guard (length shared_secret == x25519_key_size) low_order_point_error
    >> guard (not (beq shared_secret (replicate x25519_key_size 0))) low_order_point_error

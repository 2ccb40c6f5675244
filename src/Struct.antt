-- ===== src/Struct.antt =====
-- Python's `struct.pack` and `struct.unpack` for big-endian unsigned fields, by their widths in bytes.
use mathlib.Core.List.{append_assoc}
use secure_sync.Prelude.{
  ℕ, ◌+◌, ◌^◌, ◌<◌, ◌≡◌, refl, sym, ap, ◌∙◌, List, [], ◌∷◌, ◌++◌, arith, length, take, drop,
  length-append, take-append, drop-append,
}
use secure_sync.Prelude.Bytes.{Bytes, to_be, from_be, length-to_be, from_be-to_be}
use secure_sync.Errors.{Result, ok, ◌>>=◌, >>=-eq-ok}
use secure_sync.Frame.{struct_pack}

-- Fields are pairs of a width and a value.
unfoldable pub pack_fields : List (ℕ × ℕ) → Result Bytes
unfolding struct_pack
pack_fields [] = ok []
pack_fields ((width, value) ∷ fields) =
    let rest = pack_fields fields in
    struct_pack width value >>= λ field. rest >>= λ fields. ok (field ++ fields)

unfoldable pub unpack_fields : List ℕ → Bytes → List ℕ
unpack_fields [] bytes = []
unpack_fields (width ∷ widths) bytes =
    from_be (take width bytes) ∷ unpack_fields widths (drop width bytes)

abbrev pub widths_of : List (ℕ × ℕ) → List ℕ
widths_of [] = []
widths_of ((width, value) ∷ fields) = width ∷ widths_of fields

abbrev pub values_of : List (ℕ × ℕ) → List ℕ
values_of [] = []
values_of ((width, value) ∷ fields) = value ∷ values_of fields

abbrev pub total : List ℕ → ℕ
total [] = 0
total (width ∷ widths) = width + total widths

-- The first field and the others, of a list that was packed.
pack_fields_parts :
    (width value : ℕ) (fields : List (ℕ × ℕ)) (bytes : Bytes)
    → pack_fields ((width, value) ∷ fields) ≡ ok bytes
    → (others : Bytes) × (value < 256 ^ width)
      × (pack_fields fields ≡ ok others)
      × (bytes ≡ to_be width value ++ others)
unfolding pack_fields
pack_fields_parts width value fields bytes e =
    let (field, ef, e') = >>=-eq-ok (struct_pack width value) _ e in
    let (others, eo, e'') = >>=-eq-ok (pack_fields fields) _ e' in
    (
      others,
      unfold struct_pack in ground (arith, ef),
      eo,
      unfold struct_pack in ground (arith, ef, e''),
    )

pub length-pack_fields :
    (fields : List (ℕ × ℕ)) (bytes : Bytes)
    → pack_fields fields ≡ ok bytes
    → length bytes ≡ total (widths_of fields)
unfolding pack_fields
length-pack_fields [] bytes e = ground arith
length-pack_fields ((width, value) ∷ fields) bytes e =
    let (others, _, eo, same) = pack_fields_parts width value fields bytes e in
    rw same (
      omega (
        arith,
        length-append (to_be width value) others,
        length-to_be width value,
        length-pack_fields fields others eo,
      ))

-- What was packed is unpacked, whatever follows.
pub unpack-pack :
    (fields : List (ℕ × ℕ)) (bytes rest : Bytes)
    → pack_fields fields ≡ ok bytes
    → unpack_fields (widths_of fields) (bytes ++ rest) ≡ values_of fields
unfolding unpack_fields
unpack-pack [] bytes rest e = refl
unpack-pack ((width, value) ∷ fields) bytes rest e =
    let (others, fits, eo, same) = pack_fields_parts width value fields bytes e in
    let len : width ≡ length (to_be width value) = sym (length-to_be width value) in
    let regroup : bytes ++ rest ≡ to_be width value ++ (others ++ rest) =
      ap (λ z. z ++ rest) same ∙ append_assoc (to_be width value) others rest in
    let head : from_be (take width (bytes ++ rest)) ≡ value =
      ap (λ z. from_be (take width z)) regroup
      ∙ (ap from_be (take-append (to_be width value) (others ++ rest) width len)
          ∙ from_be-to_be width value fits) in
    let tail : drop width (bytes ++ rest) ≡ others ++ rest =
      ap (drop width) regroup ∙ drop-append (to_be width value) (others ++ rest) width len in
    let ih : unpack_fields (widths_of fields) (drop width (bytes ++ rest)) ≡ values_of fields =
      ap (unpack_fields (widths_of fields)) tail ∙ unpack-pack fields others rest eo in
    cc (head, ih)

-- ===== src/Frame/Aad.antt =====
-- The fields that `build_aad` (replay_protection.py) binds.
use mathlib.Core.List.{append_assoc}
use secure_sync.Prelude.{
  ℕ, ◌%◌, ◌^◌, ◌<◌, ◌≡◌, refl, sym, ◌∙◌, ap, List, [], ◌∷◌, ◌++◌, arith, length, take, drop,
  take-append, drop-append,
}
use secure_sync.Prelude.Bytes.{Bytes, to_be, from_be, length-to_be, from_be-to_be}
use secure_sync.Errors.{ok, >>=-eq-ok}
use secure_sync.Frame.{length_prefixed, build_aad}

-- Two lists that start with parts of one length agree in those parts, and in what follows.
pub append-injective {ℓ} :
    {A : Type ℓ} (xs ys us vs : List A)
    → length xs ≡ length ys
    → xs ++ us ≡ ys ++ vs
    → (xs ≡ ys) × (us ≡ vs)
append-injective xs ys us vs len e = (
  sym (take-append xs us _ refl) ∙ (ap (take (length xs)) e ∙ take-append ys vs _ len),
  sym (drop-append xs us _ refl) ∙ (ap (drop (length xs)) e ∙ drop-append ys vs _ len),
)

length_prefixed_parts :
    (value out : Bytes)
    → length_prefixed value ≡ ok out
    → (length value < 256 ^ 2) × (out ≡ to_be 2 (length value) ++ value)
unfolding length_prefixed
length_prefixed_parts value out e = ground arith

-- A length-prefixed field can be told from what follows it.
pub length_prefixed-injective :
    (x y x' y' us vs : Bytes)
    → length_prefixed x ≡ ok x'
    → length_prefixed y ≡ ok y'
    → x' ++ us ≡ y' ++ vs
    → (x ≡ y) × (us ≡ vs)
length_prefixed-injective x y x' y' us vs ex ey e =
    let (fits, sx) = length_prefixed_parts x x' ex in
    let (fits', sy) = length_prefixed_parts y y' ey in
    let regrouped : to_be 2 (length x) ++ (x ++ us) ≡ to_be 2 (length y) ++ (y ++ vs) =
      sym (append_assoc (to_be 2 (length x)) x us)
      ∙ (ap (λ z. z ++ us) (sym sx)
          ∙ (e ∙ (ap (λ z. z ++ vs) sy ∙ append_assoc (to_be 2 (length y)) y vs))) in
    let (prefix, body) =
      append-injective (to_be 2 (length x)) (to_be 2 (length y)) (x ++ us) (y ++ vs)
        (length-to_be 2 (length x) ∙ sym (length-to_be 2 (length y))) regrouped in
    let lens : length x ≡ length y =
      sym (from_be-to_be 2 (length x) fits)
      ∙ (ap from_be prefix ∙ from_be-to_be 2 (length y) fits') in
    append-injective x y us vs lens body

aad_parts :
    (v d p : ℕ) (sid s r out : Bytes)
    → build_aad v d p sid s r ≡ ok out
    → (s' : Bytes) × (r' : Bytes) × (length_prefixed s ≡ ok s')
      × (length_prefixed r ≡ ok r')
      × (out ≡ v % 256 ∷ d % 256 ∷ p % 256 ∷ (sid ++ (s' ++ r')))
unfolding build_aad
aad_parts v d p sid s r out e =
    let (s', es, e') = >>=-eq-ok (length_prefixed s) _ e in
    let (r', er, e'') = >>=-eq-ok (length_prefixed r) _ e' in (s', r', es, er, cc)

-- Associated data that are equal bind the same version, direction and packet type (as one byte
-- each), the same session, sender and receiver, if both session identifiers have one length.
pub build_aad-injective :
    (v d p v' d' p' : ℕ) (sid s r sid' s' r' out : Bytes)
    → length sid ≡ length sid'
    → build_aad v d p sid s r ≡ ok out
    → build_aad v' d' p' sid' s' r' ≡ ok out
    → (v % 256 ≡ v' % 256)
      × (d % 256 ≡ d' % 256)
      × (p % 256 ≡ p' % 256)
      × (sid ≡ sid')
      × (s ≡ s')
      × (r ≡ r')
build_aad-injective v d p v' d' p' sid s r sid' s' r' out len e e' =
    let (es, er, ls, lr, eq) = aad_parts v d p sid s r out e in
    let (es', er', ls', lr', eq') = aad_parts v' d' p' sid' s' r' out e' in
    let whole = sym eq ∙ eq' in
    let bodies : sid ++ (es ++ er) ≡ sid' ++ (es' ++ er') = cc whole in
    let (sids, rest) = append-injective sid sid' _ _ len bodies in
    let (senders, rest') = length_prefixed-injective s s' es es' er er' ls ls' rest in
    let ends : er ++ [] ≡ er' ++ [] = ap (λ z. z ++ []) rest' in
    let (receivers, _) = length_prefixed-injective r r' er er' [] [] lr lr' ends in
    (cc whole, cc whole, cc whole, sids, senders, receivers)

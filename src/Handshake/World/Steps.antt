-- ===== src/Handshake/World/Steps.antt =====
-- Reasoning about the coroutines of Handshake/World.antt: what a sequence keeps of the world, and the
-- parts of a sequence that returned.
use secure_sync.Prelude.{ℕ, ◌≡◌, refl, sym, ap, ◌∙◌, Bool, true, false, List, [], ◌∷◌, ◌++◌}
use secure_sync.Prelude.Bytes.{Bytes}
use secure_sync.Errors.{Error, Result, ok, err}
use secure_sync.Dict.{Dict}
use secure_sync.Stream.{Incoming, read_length_prefixed, frame_message, max_handshake_message_size}
use secure_sync.Handshake.{HandshakeResult}
use secure_sync.Handshake.World.{
  World, Run, continue, ◌>>=◌, return, lift, remaining, received, read_message, take_check,
  take_drain, write_message,
}

-- The parts of the world that only the protocol's own commands change.
pub record Book : Type 0 where
  pub trusted : Dict Bytes
  pub half_open : ℕ
  pub recorded : List HandshakeResult

module _ {S : Type 0} where
  abbrev pub book : World S → Book
  book w = record { trusted = w.trusted; half_open = w.half_open; recorded = w.recorded }

  -- A coroutine that leaves a part of the world as it is, whatever its outcome.
  pub record Keeps {ℓ} {A : Type ℓ} {X : Type 0} (part : World S → X) (m : Run S A) : Type 0 where
    pub keeps : (w : World S) → part (m w).1 ≡ part w

  pub Keeps-part {ℓ} :
      {A : Type ℓ} {X Y : Type 0} {part : World S → X} {m : Run S A} (f : X → Y)
      → Keeps part m
      → Keeps (λ w. f (part w)) m
  Keeps-part f h = record { keeps = λ w. ap f (h.keeps w) }

  pub Keeps-book {ℓ} :
      {A : Type ℓ} {m : Run S A} → ((w : World S) → book (m w).1 ≡ book w) → Keeps book m
  Keeps-book h = record { keeps = h }

  continue-Keeps {ℓ κ} :
      {A : Type ℓ} {B : Type κ} {X : Type 0} {part : World S → X} (k : A → Run S B)
      (r : Result A × World S)
      → ((a : A) → Keeps part (k a))
      → part (continue k r).1 ≡ part r.1
  continue-Keeps k (ok a, w) h = (h a).keeps w
  continue-Keeps k (err e, w) h = refl

  pub >>=-Keeps {ℓ κ} :
      {A : Type ℓ} {B : Type κ} {X : Type 0} {part : World S → X} (m : Run S A) (k : A → Run S B)
      → Keeps part m
      → ((a : A) → Keeps part (k a))
      → Keeps part (m >>= k)
  >>=-Keeps m k h hk = record { keeps = λ w. continue-Keeps k (m w) hk ∙ h.keeps w }

  continue_cases {ℓ κ μ} :
      {A : Type ℓ} {B : Type κ} {P : Type μ} (k : A → Run S B) (r : Result A × World S) {b : B}
      {w' : World S}
      → continue k r ≡ (ok b, w')
      → ((a : A) (w1 : World S) → r ≡ (ok a, w1) → k a w1 ≡ (ok b, w') → P)
      → P
  continue_cases k (ok a, w) h f = f a w refl h
  continue_cases k (err e, w) h f = cc

  -- A sequence that returned: its first part did, and the rest did from there.
  pub >>=_returns {ℓ κ μ} :
      {A : Type ℓ} {B : Type κ} {P : Type μ} (m : Run S A) (k : A → Run S B) (w : World S) {b : B}
      {w' : World S}
      → (m >>= k) w ≡ (ok b, w')
      → ((a : A) (w1 : World S) → m w ≡ (ok a, w1) → k a w1 ≡ (ok b, w') → P)
      → P
  >>=_returns m k w h f = continue_cases k (m w) h f

  take_check-book : (checks : List Bool) (w : World S) → book (take_check checks w).1 ≡ book w
  take_check-book [] w = refl
  take_check-book (true ∷ checks) w = refl
  take_check-book (false ∷ checks) w = refl

  pub remaining-Keeps : Keeps book remaining
  unfolding remaining
  remaining-Keeps = record { keeps = λ w. take_check-book w.checks w }

  received-book : (w : World S) (r : Result (Bytes × Incoming)) → book (received w r).1 ≡ book w
  received-book w (ok (message, rest)) = refl
  received-book w (err e) = refl

  pub read_message-Keeps : Keeps book read_message
  unfolding read_message
  read_message-Keeps = >>=-Keeps remaining _ remaining-Keeps λ u. record {
    keeps = λ w. received-book w (read_length_prefixed max_handshake_message_size w.incoming);
  }

  take_drain-book : (drains : List Bool) (w : World S) → book (take_drain drains w).1 ≡ book w
  take_drain-book [] w = refl
  take_drain-book (true ∷ drains) w = refl
  take_drain-book (false ∷ drains) w = refl

  pub write_message-Keeps : (payload : Bytes) → Keeps book (write_message payload)
  unfolding write_message
  write_message-Keeps payload = >>=-Keeps remaining _ remaining-Keeps λ u.
      >>=-Keeps (lift (frame_message payload)) _ (record { keeps = λ w. refl })
        λ frame. record {
          keeps = λ w. take_drain-book w.drains (record w { sent = w.sent ++ frame });
        }

  -- The same where the first part leaves the world alone.
  pub lift_returns {ℓ κ μ} :
      {A : Type ℓ} {B : Type κ} {P : Type μ} (r : Result A) (k : A → Run S B) (w : World S) {b : B}
      {w' : World S}
      → (lift r >>= k) w ≡ (ok b, w')
      → ((a : A) → r ≡ ok a → k a w ≡ (ok b, w') → P)
      → P
  lift_returns (ok a) k w h f = f a refl h
  lift_returns (err e) k w h f = cc

  -- A sequence has a property of outcomes if its rest has it after a return, and what raises has it.
  pub >>=_elim {ℓ κ μ} :
      {A : Type ℓ} {B : Type κ} (P : Result B × World S → Type μ) (m : Run S A) (k : A → Run S B)
      (w : World S)
      → ((e : Error) (w1 : World S) → m w ≡ (err e, w1) → P (err e, w1))
      → ((a : A) (w1 : World S) → m w ≡ (ok a, w1) → P (k a w1))
      → P ((m >>= k) w)
  >>=_elim {A = A} P m k w on_err on_ok = continue_elim (m w) on_err on_ok
    where
      continue_elim :
          (r : Result A × World S)
          → ((e : Error) (w1 : World S) → r ≡ (err e, w1) → P (err e, w1))
          → ((a : A) (w1 : World S) → r ≡ (ok a, w1) → P (k a w1))
          → P (continue k r)
      continue_elim (err e, w1) on_err on_ok = on_err e w1 refl
      continue_elim (ok a, w1) on_err on_ok = on_ok a w1 refl

  pub lift_elim {ℓ κ μ} :
      {A : Type ℓ} {B : Type κ} (P : Result B × World S → Type μ) (r : Result A) (k : A → Run S B)
      (w : World S)
      → ((e : Error) → r ≡ err e → P (err e, w))
      → ((a : A) → r ≡ ok a → P (k a w))
      → P ((lift r >>= k) w)
  lift_elim P (err e) k w on_err on_ok = on_err e refl
  lift_elim P (ok a) k w on_err on_ok = on_ok a refl

  -- The world after a coroutine that keeps a part of it.
  pub Keeps-after {ℓ} :
      {A : Type ℓ} {X : Type 0} {part : World S → X} {m : Run S A} {w w1 : World S} {r : Result A}
      → Keeps part m
      → m w ≡ (r, w1)
      → part w1 ≡ part w
  Keeps-after {part = part} {w = w} k h = ap (λ x. part x.1) (sym h) ∙ k.keeps w

  -- A last step that only makes the result leaves the world to the first part.
  pub >>=_return-world {ℓ κ} :
      {A : Type ℓ} {B : Type κ} (m : Run S A) (f : A → B) (w : World S)
      → ((m >>= λ a. return (f a)) w).1 ≡ (m w).1
  >>=_return-world {A = A} {B = B} m f w = unchanged (m w)
    where
      unchanged : (r : Result A × World S) → (continue (λ a. return (f a)) r).1 ≡ r.1
      unchanged (ok a, w1) = refl
      unchanged (err e, w1) = refl

  -- The parts that the rest of a sequence keeps are those that its first part left.
  pub >>=_rest-Keeps {ℓ κ} :
      {A : Type ℓ} {B : Type κ} {X : Type 0} {part : World S → X} (m : Run S A) (k : A → Run S B)
      (w : World S)
      → ((a : A) → Keeps part (k a))
      → part ((m >>= k) w).1 ≡ part (m w).1
  >>=_rest-Keeps m k w h = continue-Keeps k (m w) h

-- ===== src/RateLimit/Bucket.antt =====
-- The token bucket of `GlobalHandshakeLimiter` in the file handshake_rate_limit.py.
use secure_sync.Prelude.{
  ℕ, ◌+◌, ◌-◌, ◌*◌, ◌≤◌, ◌≡◌, sym, ap, ◌∙◌, Bool, true, false, List, [], ◌∷◌, arith,
}
use native.Mathlib.Nat.{add-mul}
use secure_sync.RateLimit.{GlobalHandshakeLimiter, admit, refill, take_token}

-- The number of handshakes that are admitted at these times, and the state afterwards.
unfoldable pub admitted : GlobalHandshakeLimiter → List ℕ → ℕ × GlobalHandshakeLimiter
admitted b [] = (0, b)
admitted b (now ∷ ts) =
    let rest = admitted (admit b now).1 ts in
    (elim (admit b now).0 [ true ↦ 1 + rest.0 | false ↦ rest.0 ], rest.1)

abbrev pub last_of : ℕ → List ℕ → ℕ
last_of start [] = start
last_of start (t ∷ ts) = last_of t ts

abbrev pub IsMonotone : ℕ → List ℕ → Type 0
IsMonotone start [] = Unit
IsMonotone start (t ∷ ts) = (start ≤ t) × IsMonotone t ts

-- The credit that time brings, taken in two steps.
credit_add : (r a b c : ℕ) → a ≤ b → b ≤ c → (b - a) * r + (c - b) * r ≡ (c - a) * r
credit_add r a b c p q = sym (add-mul (b - a) (c - b) r) ∙ ap (λ d. d * r) (omega arith)

-- Each admission takes one token, which was there or came with the time since the last refill.
admit_cost :
    (b : GlobalHandshakeLimiter) (now : ℕ)
    → (elim (admit b now).0 [ true ↦ b.whole | false ↦ 0 ]) + (admit b now).1.tokens
      ≤ b.tokens + (now - b.last) * b.rate
unfolding admit refill take_token
admit_cost b now = ground arith

admit-fields :
    (b : GlobalHandshakeLimiter) (now : ℕ)
    → ((admit b now).1.rate ≡ b.rate)
      × ((admit b now).1.whole ≡ b.whole)
      × ((admit b now).1.last ≡ now)
unfolding admit refill take_token
admit-fields b now = ground arith

last_of-le : (start : ℕ) (ts : List ℕ) → IsMonotone start ts → start ≤ last_of start ts
last_of-le start [] h = omega arith
last_of-le start (t ∷ ts) h = omega (arith, h.0, last_of-le t ts h.1)

cost_of_one :
    (c : Bool) (n cost : ℕ)
    → (elim c [ true ↦ 1 + n | false ↦ n ]) * cost ≡ (elim c [ true ↦ cost | false ↦ 0 ]) + n * cost
cost_of_one true n cost = add-mul 1 n cost ∙ omega arith
cost_of_one false n cost = omega arith

-- While the clock does not run backwards, the tokens of the admitted handshakes and those left in the
-- bucket are at most the tokens at the start and what the rate brings in the time that has passed.
pub admitted_bound :
    (b : GlobalHandshakeLimiter) (ts : List ℕ)
    → IsMonotone b.last ts
    → (admitted b ts).0 * b.whole + (admitted b ts).1.tokens
      ≤ b.tokens + (last_of b.last ts - b.last) * b.rate
unfolding admitted
admitted_bound b [] h = omega arith
admitted_bound b (now ∷ ts) h =
    let b' = (admit b now).1 in
    let fields = admit-fields b now in
    let hyp : IsMonotone b'.last ts = rw fields.2 h.1 in
    let raw = admitted_bound (admit b now).1 ts hyp in
    let rest : (admitted b' ts).0 * b.whole + (admitted b' ts).1.tokens
        ≤ b'.tokens + (last_of now ts - now) * b.rate =
      rw (fields.0, fields.1, fields.2) at raw in
    omega (
      arith,
      rest,
      cost_of_one (admit b now).0 (admitted b' ts).0 b.whole,
      admit_cost b now,
      credit_add b.rate b.last now (last_of now ts) h.0 (last_of-le now ts h.1),
    )

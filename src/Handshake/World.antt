-- ===== src/Handshake/World.antt =====
-- What the coroutines of handshake_v3.py change: the connection, the trust store, the counts of the
-- handshake object and the state of the exchange. A coroutine takes the world and returns what it returns
-- or raises, with the world afterwards.
pub mod Steps
use secure_sync.Prelude.{
  ℕ, zero, suc, ◌+◌, ◌-◌, Bool, true, false, Option, none, some, List, [], ◌∷◌, ◌++◌, leb,
  if◌then◌else◌,
}
use secure_sync.Prelude.Bytes.{Bytes}
use secure_sync.Errors.{
  Error, Result, ok, err, handshake_deadline_error, handshake_busy_error,
  message_read_timeout_error,
}
use secure_sync.Dict
use secure_sync.Dict.{Dict}
use secure_sync.Stream.{Incoming, read_length_prefixed, frame_message, max_handshake_message_size}
use secure_sync.Handshake.{HandshakeResult}

-- `S` are the states of the exchange. `checks` says for each coming `_remaining` whether time is left,
-- and `drains` for each `drain` whether it ends in time; after the last entry, it is so.
pub record World (S : Type 0) : Type 0 where
  pub state : S
  pub trusted : Dict Bytes
  pub incoming : Incoming
  pub sent : Bytes
  pub checks : List Bool
  pub drains : List Bool
  pub half_open : ℕ
  pub recorded : List HandshakeResult

abbrev pub Run {ℓ} : Type 0 → Type ℓ → Type ℓ
Run S A = World S → Result A × World S

-- `except (TimeoutError, MessageReadTimeoutError)`
unfoldable pub as_deadline : Error → Error
as_deadline message_read_timeout_error = handshake_deadline_error
as_deadline e = e

module _ {S : Type 0} where
  abbrev pub continue {ℓ κ} :
      {A : Type ℓ} {B : Type κ} → (A → Run S B) → Result A × World S → Result B × World S
  continue f (ok a, w) = f a w
  continue f (err e, w) = (err e, w)

  infixl 5 ◌>>=◌
  abbrev pub ◌>>=◌ {ℓ κ} : {A : Type ℓ} {B : Type κ} → Run S A → (A → Run S B) → Run S B
  (m >>= f) w = continue f (m w)

  infixl 5 ◌>>◌
  abbrev pub ◌>>◌ {ℓ} : {B : Type ℓ} → Run S (Unit {0}) → Run S B → Run S B
  m >> k = m >>= λ u. k

  abbrev pub return {ℓ} : {A : Type ℓ} → A → Run S A
  return a w = (ok a, w)

  -- A computation that changes nothing.
  abbrev pub lift {ℓ} : {A : Type ℓ} → Result A → Run S A
  lift r w = (r, w)

  abbrev pub enter : S → Run S (Unit {0})
  enter s w = (ok tt, record w { state = s })

  -- `_remaining`
  abbrev pub take_check : List Bool → World S → Result (Unit {0}) × World S
  take_check [] w = (ok tt, w)
  take_check (true ∷ checks) w = (ok tt, record w { checks = checks })
  take_check (false ∷ checks) w = (err handshake_deadline_error, record w { checks = checks })

  unfoldable pub remaining : Run S (Unit {0})
  remaining w = take_check w.checks w

  abbrev pub received : World S → Result (Bytes × Incoming) → Result Bytes × World S
  received w (ok (message, rest)) = (ok message, record w { incoming = rest })
  received w (err e) = (err (as_deadline e), w)

  -- `_read`
  unfoldable pub read_message : Run S Bytes
  unfolding remaining
  read_message = do
    remaining
    (λ w. received w (read_length_prefixed max_handshake_message_size w.incoming))

  abbrev pub take_drain : List Bool → World S → Result (Unit {0}) × World S
  take_drain [] w = (ok tt, w)
  take_drain (true ∷ drains) w = (ok tt, record w { drains = drains })
  take_drain (false ∷ drains) w = (err handshake_deadline_error, record w { drains = drains })

  -- `_write`: the bytes are handed to the connection before the wait for `drain`.
  unfoldable pub write_message : Bytes → Run S (Unit {0})
  unfolding remaining
  write_message payload = do
    remaining
    frame ← lift (frame_message payload)
    (λ w. take_drain w.drains (record w { sent = w.sent ++ frame }))

  -- The trust store: `get_trusted_key` and `trust`.
  abbrev pub get_trusted_key : Bytes → Run S (Option Bytes)
  get_trusted_key device_id w = (ok (Dict.lookup device_id w.trusted), w)

  abbrev pub trust : Bytes → Bytes → Run S (Unit {0})
  trust device_id key w = (ok tt, record w { trusted = Dict.insert device_id key w.trusted })

  unfoldable pub begin_half_open : ℕ → Run S (Unit {0})
  begin_half_open max_half_open w =
      if leb max_half_open w.half_open
      then (err handshake_busy_error, w)
      else (ok tt, record w { half_open = w.half_open + 1 })

  -- A count of 0 stays 0, as the source tests.
  unfoldable pub end_half_open : World S → World S
  end_half_open w = record w { half_open = w.half_open - 1 }

  -- `try: … finally: owner.end_half_open()`
  abbrev pub finally_end {ℓ} : {A : Type ℓ} → Run S A → Run S A
  finally_end m w = let (r, w') = m w in (r, end_half_open w')

-- ===== src/Debounce.antt =====
-- `EventDebouncer` of src/securesync/infrastructure/filesystem/debounce.py. The ordered dictionary is an
-- association list from the least to the most recent key; the clock's reading is an argument.
pub mod History
use secure_sync.Prelude.{
  ℕ, zero, ◌-◌, Bool, true, false, ◌==◌, ltb, Option, none, some, List, [], ◌∷◌, ◌++◌,
  if◌then◌else◌,
}
use secure_sync.Prelude.Int.{ℤ, pos, negsuc}
use secure_sync.Prelude.Bytes.{Bytes}
use secure_sync.Errors.{Result, ok, err, value_error}
use secure_sync.Dict
use secure_sync.Dict.{Dict}

pub record EventDebouncer : Type 0 where
  pub window_seconds : ℕ
  pub last_seen : Dict ℕ

-- `EventDebouncer(window_seconds)`, in ticks of the clock
unfoldable pub make_debouncer : ℤ → Result EventDebouncer
make_debouncer (pos window) = ok (record { window_seconds = window; last_seen = [] })
make_debouncer (negsuc n) = err value_error

-- `_evict_stale`: from the front, the least recent key.
unfoldable pub evict_stale : ℕ → ℕ → Dict ℕ → Dict ℕ
evict_stale window now [] = []
evict_stale window now ((key, last) ∷ seen) =
    let rest = evict_stale window now seen in
    if ltb (now - last) window then (key, last) ∷ seen else rest

-- `last is not None and (now - last) < self._window_seconds`
unfoldable pub is_duplicate : ℕ → ℕ → Option ℕ → Bool
is_duplicate window now none = false
is_duplicate window now (some last) = ltb (now - last) window

-- The key is set and moved to the end.
unfoldable pub record_key : Bytes → ℕ → Dict ℕ → Dict ℕ
record_key key now seen = Dict.remove key seen ++ (key, now) ∷ []

unfoldable pub should_emit : EventDebouncer → Bytes → ℕ → Bool × EventDebouncer
unfolding evict_stale is_duplicate record_key
should_emit d key now =
    if d.window_seconds == 0
    then (true, d)
    else (let seen = evict_stale d.window_seconds now d.last_seen in
        if is_duplicate d.window_seconds now (Dict.lookup key seen)
        then (false, record d { last_seen = seen })
        else (true, record d { last_seen = record_key key now seen }))

unfoldable pub reset : EventDebouncer → EventDebouncer
reset d = record d { last_seen = [] }

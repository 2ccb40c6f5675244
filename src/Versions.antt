-- ===== src/Versions.antt =====
-- `VersionVector` of src/securesync/domain/conflict.py: a logical clock for a file, one counter for each
-- device.
pub mod Order
use secure_sync.Prelude.{
  ℕ, ◌+◌, max, leb, Bool, true, false, not, ◌||◌, ◌&&◌, ◌==◌, Option, none, some, List, [], ◌∷◌,
  if◌then◌else◌,
}
use secure_sync.Prelude.Bytes.{Bytes}
use secure_sync.Dict
use secure_sync.Dict.{Dict}

pub record VersionVector : Type 0 where
  pub counters : Dict ℕ

-- `counters.get(device_id, 0)`
unfoldable pub counter_of : Dict ℕ → Bytes → ℕ
counter_of d k = elim (Dict.lookup k d) [ none ↦ 0 | some n ↦ n ]

unfoldable pub increment : VersionVector → Bytes → VersionVector
increment v k = record { counters = Dict.insert k (counter_of v.counters k + 1) v.counters }

-- The loop of `merge` over the other vector's items.
unfoldable pub merge_counters : Dict ℕ → Dict ℕ → Dict ℕ
merge_counters d [] = d
merge_counters d ((k, n) ∷ e) = merge_counters (Dict.insert k (max (counter_of d k) n) d) e

unfoldable pub merge : VersionVector → VersionVector → VersionVector
merge v w = record { counters = merge_counters v.counters w.counters }

-- The loop of `__le__`.
unfoldable pub le_counters : Dict ℕ → Dict ℕ → Bool
le_counters [] e = true
le_counters ((k, n) ∷ d) e = leb n (counter_of e k) && le_counters d e

unfoldable pub le : VersionVector → VersionVector → Bool
le v w = le_counters v.counters w.counters

-- Every item of the one `dict` is an item of the other.
unfoldable pub includes : Dict ℕ → Dict ℕ → Bool
includes [] e = true
includes ((k, n) ∷ d) e = elim (Dict.lookup k e) [ none ↦ false | some m ↦ n == m && includes d e ]

-- Equality of two `dict`s, whatever the order of their items.
unfoldable pub same_counters : Dict ℕ → Dict ℕ → Bool
same_counters d e = includes d e && includes e d

unfoldable pub lt : VersionVector → VersionVector → Bool
lt v w = le v w && not (same_counters v.counters w.counters)

unfoldable pub is_concurrent : VersionVector → VersionVector → Bool
is_concurrent v w = not (le v w || le w v)

-- ===== src/RateLimit.antt =====
-- The limiters of src/securesync/infrastructure/networking/handshake_rate_limit.py. The clock's reading
-- is an argument of each method. Times are whole ticks, `t > now - window` is `now < t + window`, and
-- tokens are counted in parts, `whole` of which are one token. An argument below zero, which the source
-- refuses as it does zero, is outside ℕ.
pub mod Sliding
pub mod Bucket
pub mod Prune
use secure_sync.Prelude.{
  ℕ, zero, suc, ◌+◌, ◌-◌, ◌*◌, min, ltb, leb, Bool, true, false, not, Option, none, some, List, [],
  ◌∷◌, ◌++◌, if◌then◌else◌, length, keep_if, any,
}
use secure_sync.Prelude.Bytes.{Bytes}
use secure_sync.Errors.{Result, ok, err, ◌>>◌, guard, value_error}
use secure_sync.Dict
use secure_sync.Dict.{Dict}

pub record SourceIpRateLimiter : Type 0 where
  pub max_attempts : ℕ
  pub window : ℕ
  pub attempts : Dict (List ℕ)

unfoldable pub make_limiter : ℕ → ℕ → Result SourceIpRateLimiter
make_limiter max_attempts window =
    guard (ltb 0 max_attempts) value_error
    >> guard (ltb 0 window) value_error
    >> ok (record { max_attempts = max_attempts; window = window; attempts = [] })

-- `t > cutoff`
abbrev pub is_recent : ℕ → ℕ → ℕ → Bool
is_recent window now t = ltb now (t + window)

unfoldable pub times_of : SourceIpRateLimiter → Bytes → List ℕ
times_of l ip = elim (Dict.lookup ip l.attempts) [ none ↦ [] | some ts ↦ ts ]

unfoldable pub with_times : SourceIpRateLimiter → Bytes → List ℕ → SourceIpRateLimiter
with_times l ip ts = record l { attempts = Dict.insert ip ts l.attempts }

unfoldable pub allow : SourceIpRateLimiter → ℕ → Bytes → Bool × SourceIpRateLimiter
allow l now ip =
    let times = keep_if (is_recent l.window now) (times_of l ip) in
    if leb l.max_attempts (length times)
    then (false, with_times l ip times)
    else (true, with_times l ip (times ++ now ∷ []))

unfoldable pub reset : SourceIpRateLimiter → Option Bytes → SourceIpRateLimiter
reset l none = record l { attempts = [] }
reset l (some ip) = record l { attempts = Dict.remove ip l.attempts }

-- The `stale` list of `prune`.
unfoldable pub stale_of : ℕ → ℕ → Dict (List ℕ) → List Bytes
stale_of window now [] = []
stale_of window now ((ip, ts) ∷ d) =
    let rest = stale_of window now d in if any (is_recent window now) ts then rest else ip ∷ rest

unfoldable pub remove_all_sources : List Bytes → Dict (List ℕ) → Dict (List ℕ)
remove_all_sources [] d = d
remove_all_sources (ip ∷ ips) d = remove_all_sources ips (Dict.remove ip d)

unfoldable pub prune : SourceIpRateLimiter → ℕ → ℕ × SourceIpRateLimiter
prune l now =
    let stale = stale_of l.window now l.attempts in
    (length stale, record l { attempts = remove_all_sources stale l.attempts })

pub record GlobalHandshakeLimiter : Type 0 where
  pub rate : ℕ
  pub burst : ℕ
  pub whole : ℕ
  pub tokens : ℕ
  pub last : ℕ

unfoldable pub make_bucket : ℕ → ℕ → ℕ → ℕ → Result GlobalHandshakeLimiter
make_bucket rate burst whole now =
    guard (ltb 0 rate) value_error
    >> guard (ltb 0 burst) value_error
    >> ok (record { rate = rate; burst = burst; whole = whole; tokens = burst; last = now })

-- `max(0.0, now - last)` is the difference on ℕ.
unfoldable pub refill : GlobalHandshakeLimiter → ℕ → GlobalHandshakeLimiter
refill b now = record b { tokens = min b.burst (b.tokens + (now - b.last) * b.rate); last = now }

-- The property `tokens`, which refills as a side effect.
unfoldable pub available : GlobalHandshakeLimiter → ℕ → ℕ × GlobalHandshakeLimiter
available b now = let b' = refill b now in (b'.tokens, b')

unfoldable pub take_token : GlobalHandshakeLimiter → Bool × GlobalHandshakeLimiter
take_token b =
    if ltb b.tokens b.whole then (false, b) else (true, record b { tokens = b.tokens - b.whole })

-- `GlobalHandshakeLimiter.allow`
unfoldable pub admit : GlobalHandshakeLimiter → ℕ → Bool × GlobalHandshakeLimiter
admit b now = take_token (refill b now)

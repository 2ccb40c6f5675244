-- ===== src/Tests/Limits.antt =====
-- The handshake limiters' properties on short runs.
use secure_sync.Prelude.{ℕ, ◌+◌, ◌-◌, ◌*◌, ◌≤◌, ◌≡◌, refl, List, [], ◌∷◌, arith}
use secure_sync.Prelude.Bytes.{beq}
use secure_sync.Dict
use secure_sync.RateLimit.Prune.{allow_all-prune}
use secure_sync.RateLimit.{prune, SourceIpRateLimiter, make_limiter, GlobalHandshakeLimiter}
use secure_sync.RateLimit.Sliding.{
  Request, allow_all, admit_all, limiter_refines_history, IsOrdered,
}
use secure_sync.RateLimit.Bucket.{admitted, last_of, admitted_bound, IsMonotone}

-- Two attempts in ten ticks.
abbrev limiter : SourceIpRateLimiter
limiter = record { max_attempts = 2; window = 10; attempts = [] }

abbrev requests : List Request
requests = (1, 7 ∷ []) ∷ (2, 7 ∷ []) ∷ (3, 7 ∷ []) ∷ (3, 8 ∷ []) ∷ (12, 7 ∷ []) ∷ []

requests-IsOrdered : IsOrdered 0 requests
requests-IsOrdered = (omega arith, (omega arith, (omega arith, (omega arith, (omega arith, tt)))))

limiter_refines_history_example : allow_all limiter requests ≡ admit_all 2 10 [] requests
unfolding make_limiter
limiter_refines_history_example =
    limiter_refines_history 2 10 limiter requests refl requests-IsOrdered

abbrev bucket : GlobalHandshakeLimiter
bucket = record { rate = 3; burst = 20; whole = 10; tokens = 20; last = 5 }

abbrev arrivals : List ℕ
arrivals = 5 ∷ 6 ∷ 7 ∷ 12 ∷ []

arrivals-IsMonotone : IsMonotone 5 arrivals
arrivals-IsMonotone = (omega arith, (omega arith, (omega arith, (omega arith, tt))))

admitted_bound_example :
    (admitted bucket arrivals).0 * 10 + (admitted bucket arrivals).1.tokens
    ≤ 20 + (last_of 5 arrivals - 5) * 3
admitted_bound_example = admitted_bound bucket arrivals arrivals-IsMonotone

abbrev used_limiter : SourceIpRateLimiter
used_limiter = record {
  max_attempts = 2;
  window = 10;
  attempts = (7 ∷ [], 1 ∷ 2 ∷ []) ∷ (8 ∷ [], 9 ∷ []) ∷ [];
}

-- The first request after the prune is refused, the last fills the window again.
abbrev later_requests : List Request
later_requests = (13, 7 ∷ []) ∷ (13, 8 ∷ []) ∷ (14, 8 ∷ []) ∷ (22, 8 ∷ []) ∷ []

allow_all-prune_example :
    allow_all (prune used_limiter 12).1 later_requests ≡ allow_all used_limiter later_requests
unfolding Dict.lookup beq
allow_all-prune_example =
    allow_all-prune used_limiter 12 later_requests (refl, (refl, tt))
      (omega arith, (omega arith, (omega arith, (omega arith, tt))))

-- ===== src/RateLimit/Prune.antt =====
-- `SourceIpRateLimiter.prune` (handshake_rate_limit.py), and the answers of `allow` after it.
use secure_sync.Prelude.{
  ℕ, ◌≤◌, ◌≡◌, refl, sym, ap₂, ◌∙◌, Bool, true, false, not, Option, none, some, List, [], ◌∷◌,
  if◌then◌else◌, keep_if, any, arith, inl, inr, Bool-cases,
}
use secure_sync.Prelude.Bytes.{Bytes, beq, beq_iff, mem}
use secure_sync.Dict
use secure_sync.Dict.{Dict, IsDict, lookup-remove}
use secure_sync.RateLimit.{
  SourceIpRateLimiter, allow, times_of, is_recent, stale_of, remove_all_sources, prune,
}
use secure_sync.RateLimit.Sliding.{Request, allow_all, IsOrdered, allow-limits, times_of-allow}

lookup-remove_all_sources :
    (ips : List Bytes) (ip : Bytes) (d : Dict (List ℕ))
    → Dict.lookup ip (remove_all_sources ips d) ≡ (if mem ip ips then none else Dict.lookup ip d)
unfolding remove_all_sources
lookup-remove_all_sources [] ip d = refl
lookup-remove_all_sources (i ∷ ips) ip d = ground (
  arith,
  lookup-remove_all_sources ips ip (Dict.remove i d),
  lookup-remove i ip d,
  beq_iff i ip,
  beq_iff ip i,
)

abbrev is_stale : ℕ → ℕ → Option (List ℕ) → Bool
is_stale window now none = false
is_stale window now (some ts) = not (any (is_recent window now) ts)

mem-stale_of :
    (window now : ℕ) (d : Dict (List ℕ)) (ip : Bytes)
    → IsDict d
    → mem ip (stale_of window now d) ≡ is_stale window now (Dict.lookup ip d)
unfolding stale_of Dict.lookup
mem-stale_of window now [] ip u = refl
mem-stale_of window now ((i, ts) ∷ d) ip u =
    ground (arith, mem-stale_of window now d ip u.1, u.0, beq_iff i ip, beq_iff ip i)

keep_if-stale :
    (window now later : ℕ) (ts : List ℕ)
    → now ≤ later
    → any (is_recent window now) ts ≡ false
    → keep_if (is_recent window later) ts ≡ []
keep_if-stale window now later [] o h = refl
keep_if-stale window now later (t ∷ ts) o h = ground (arith, keep_if-stale window now later ts o)

times_of-prune :
    (l : SourceIpRateLimiter) (now : ℕ) (ip : Bytes)
    → IsDict l.attempts
    → times_of (prune l now).1 ip
      ≡ (if is_stale l.window now (Dict.lookup ip l.attempts) then [] else times_of l ip)
unfolding prune times_of
times_of-prune l now ip u = ground (
  arith,
  lookup-remove_all_sources (stale_of l.window now l.attempts) ip l.attempts,
  mem-stale_of l.window now l.attempts ip u,
)

recent_stale :
    (l : SourceIpRateLimiter) (now later : ℕ) (ip : Bytes)
    → now ≤ later
    → is_stale l.window now (Dict.lookup ip l.attempts) ≡ true
    → keep_if (is_recent l.window later) (times_of l ip) ≡ []
unfolding times_of
recent_stale l now later ip o h = go (Dict.lookup ip l.attempts) h
  where
    go :
        (found : Option (List ℕ))
        → is_stale l.window now found ≡ true
        → keep_if (is_recent l.window later) (elim found [ none ↦ [] | some ts ↦ ts ]) ≡ []
    go none q = refl
    go (some ts) q = keep_if-stale l.window now later ts o (ground (arith, q))

recent-prune :
    (l : SourceIpRateLimiter) (now later : ℕ) (ip : Bytes)
    → IsDict l.attempts
    → now ≤ later
    → keep_if (is_recent l.window later) (times_of (prune l now).1 ip)
      ≡ keep_if (is_recent l.window later) (times_of l ip)
recent-prune l now later ip u o =
    rw (times_of-prune l now ip u)
      elim (Bool-cases (is_stale l.window now (Dict.lookup ip l.attempts))) [
        | inl e ↦ rw e (sym (recent_stale l now later ip o e))
        | inr e ↦ rw e refl
      ]

-- Two limiters that keep, from a time on, the same recent times of every source.
record Alike (l l' : SourceIpRateLimiter) (start : ℕ) : Type 0 where
  limits : (l'.max_attempts ≡ l.max_attempts) × (l'.window ≡ l.window)
  same :
      (now : ℕ) (ip : Bytes)
      → start ≤ now
      → keep_if (is_recent l.window now) (times_of l' ip)
        ≡ keep_if (is_recent l.window now) (times_of l ip)

answer-Alike :
    (l l' : SourceIpRateLimiter) (start now : ℕ) (ip : Bytes)
    → Alike l l' start
    → start ≤ now
    → (allow l' now ip).0 ≡ (allow l now ip).0
unfolding allow times_of
answer-Alike l l' start now ip a o = rw (a.limits.0, a.limits.1, a.same now ip o) (ground arith)

same-allow :
    (l l' : SourceIpRateLimiter) (start now later : ℕ) (b ip : Bytes)
    → Alike l l' start
    → start ≤ now
    → now ≤ later
    → keep_if (is_recent l.window later) (times_of (allow l' now b).1 ip)
      ≡ keep_if (is_recent l.window later) (times_of (allow l now b).1 ip)
unfolding times_of
same-allow l l' start now later b ip a o p =
    rw (times_of-allow l' now b ip, times_of-allow l now b ip, answer-Alike l l' start now b a o)
      elim (Bool-cases (beq b ip)) [
        | inl e ↦ rw (e, a.limits.1, a.same now b o) refl
        | inr e ↦ rw e (a.same later ip (omega arith))
      ]

allow-Alike :
    (l l' : SourceIpRateLimiter) (start now : ℕ) (b : Bytes)
    → Alike l l' start
    → start ≤ now
    → Alike (allow l now b).1 (allow l' now b).1 now
allow-Alike l l' start now b a o = record {
  limits = (
    (allow-limits l' now b).0 ∙ a.limits.0 ∙ sym ((allow-limits l now b).0),
    (allow-limits l' now b).1 ∙ a.limits.1 ∙ sym ((allow-limits l now b).1),
  );
  same = λ later ip p. rw ((allow-limits l now b).1) (same-allow l l' start now later b ip a o p);
}

allow_all-Alike :
    (l l' : SourceIpRateLimiter) (start : ℕ) (rs : List Request)
    → Alike l l' start
    → IsOrdered start rs
    → allow_all l' rs ≡ allow_all l rs
allow_all-Alike l l' start [] a o = refl
allow_all-Alike l l' start ((now, b) ∷ rs) a o = ap₂ ◌∷◌ (answer-Alike l l' start now b a o.0) (
    allow_all-Alike (allow l now b).1 (allow l' now b).1 now rs (allow-Alike l l' start now b a o.0)
      o.1)

prune-Alike : (l : SourceIpRateLimiter) (now : ℕ) → IsDict l.attempts → Alike l (prune l now).1 now
unfolding prune
prune-Alike l now u = record {
  limits = (refl, refl);
  same = λ later ip p. recent-prune l now later ip u p;
}

-- Once `prune` has run, every sequence of later requests, from whatever sources, gets the answers that
-- it would have got without it, if the clock does not run backwards and no source stands twice in the
-- limiter's dictionary.
pub allow_all-prune :
    (l : SourceIpRateLimiter) (now : ℕ) (rs : List Request)
    → IsDict l.attempts
    → IsOrdered now rs
    → allow_all (prune l now).1 rs ≡ allow_all l rs
allow_all-prune l now rs u o = allow_all-Alike l (prune l now).1 now rs (prune-Alike l now u) o

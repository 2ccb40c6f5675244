-- ===== src/RateLimit/Sliding.antt =====
-- The sliding window of `SourceIpRateLimiter` in the file handshake_rate_limit.py, against the whole
-- history of the admitted requests.
use secure_sync.Prelude.{
  ℕ, ◌≤◌, ◌≡◌, refl, sym, ap, ap₂, ◌∙◌, ltb, Bool, List, [], ◌∷◌, ◌++◌, if◌then◌else◌, length,
  keep_if, arith, inl, inr, Bool-cases,
}
use secure_sync.Prelude.Bytes.{Bytes, beq, beq_iff}
use secure_sync.Dict
use secure_sync.Dict.{Dict, lookup-insert}
use secure_sync.Errors.{ok, guard, value_error, ◌>>◌, >>=_cases, ok-injective}
use secure_sync.RateLimit.{
  SourceIpRateLimiter, make_limiter, allow, times_of, with_times, is_recent,
}

-- A request: when it came and from where.
abbrev pub Request : Type 0
Request = ℕ × Bytes

-- Specification: the times at which requests from a source were admitted, and of those the recent ones.
abbrev pub admitted_from : List Request → Bytes → List ℕ
admitted_from [] ip = []
admitted_from ((t, a) ∷ h) ip = if beq a ip then t ∷ admitted_from h ip else admitted_from h ip

-- A request is admitted when fewer than the limit were admitted from its source in the window before it.
abbrev pub may_enter : ℕ → ℕ → List Request → Request → Bool
may_enter limit window history r =
    ltb (length (keep_if (is_recent window r.0) (admitted_from history r.1))) limit

abbrev pub admit_one : ℕ → ℕ → List Request → Request → List Request
admit_one limit window history r =
    if may_enter limit window history r then history ++ r ∷ [] else history

abbrev pub admit_all : ℕ → ℕ → List Request → List Request → List Bool
admit_all limit window history [] = []
admit_all limit window history (r ∷ rs) =
    may_enter limit window history r ∷ admit_all limit window (admit_one limit window history r) rs

abbrev pub allow_all : SourceIpRateLimiter → List Request → List Bool
allow_all l [] = []
allow_all l ((now, ip) ∷ rs) = (allow l now ip).0 ∷ allow_all (allow l now ip).1 rs

-- The clock does not run backwards.
abbrev pub IsOrdered : ℕ → List Request → Type 0
IsOrdered start [] = Unit
IsOrdered start (r ∷ rs) = (start ≤ r.0) × IsOrdered r.0 rs

-- What the limiter keeps is, at any later time, as good as the whole history.
pub record Follows (l : SourceIpRateLimiter) (history : List Request) (start : ℕ) : Type 0 where
  pub same :
      (now : ℕ) (ip : Bytes)
      → start ≤ now
      → keep_if (is_recent l.window now) (times_of l ip)
        ≡ keep_if (is_recent l.window now) (admitted_from history ip)

pub keep_if-append :
    {A : Type 0} (p : A → Bool) (xs ys : List A)
    → keep_if p (xs ++ ys) ≡ keep_if p xs ++ keep_if p ys
keep_if-append p [] ys = refl
keep_if-append p (x ∷ xs) ys = ground (arith, keep_if-append p xs ys)

admitted_from-append :
    (h : List Request) (r : Request) (ip : Bytes)
    → admitted_from (h ++ r ∷ []) ip
      ≡ (if beq r.1 ip then admitted_from h ip ++ r.0 ∷ [] else admitted_from h ip)
admitted_from-append [] r ip = ground arith
admitted_from-append ((t, a) ∷ h) r ip = ground (arith, admitted_from-append h r ip)

pub keep_if-twice :
    (w start now : ℕ) (ts : List ℕ)
    → start ≤ now
    → keep_if (is_recent w now) (keep_if (is_recent w start) ts) ≡ keep_if (is_recent w now) ts
keep_if-twice w start now [] h = refl
keep_if-twice w start now (t ∷ ts) h = ground (arith, keep_if-twice w start now ts h)

times_of-with_times :
    (l : SourceIpRateLimiter) (a ip : Bytes) (ts : List ℕ)
    → times_of (with_times l a ts) ip ≡ (if beq a ip then ts else times_of l ip)
unfolding times_of with_times
times_of-with_times l a ip ts = ground (arith, lookup-insert a ip ts l.attempts)

-- One request: the answer is the specification's, and the limiter goes on following the history.
allow-may_enter :
    (l : SourceIpRateLimiter) (h : List Request) (start now : ℕ) (ip : Bytes)
    → Follows l h start
    → start ≤ now
    → (allow l now ip).0 ≡ may_enter l.max_attempts l.window h (now, ip)
unfolding allow
allow-may_enter l h start now ip f o = rw (f.same now ip o) (ground arith)

pub allow-limits :
    (l : SourceIpRateLimiter) (now : ℕ) (ip : Bytes)
    → ((allow l now ip).1.max_attempts ≡ l.max_attempts) × ((allow l now ip).1.window ≡ l.window)
unfolding allow with_times
allow-limits l now ip = ground arith

append-nil : (xs : List ℕ) → xs ++ [] ≡ xs
append-nil [] = refl
append-nil (x ∷ xs) = ap (◌∷◌ x) (append-nil xs)

-- The time that a request leaves behind.
abbrev pub left_by : Bool → ℕ → List ℕ
left_by b now = if b then now ∷ [] else []

-- The times kept for a source after a request.
pub times_of-allow :
    (l : SourceIpRateLimiter) (now : ℕ) (a ip : Bytes)
    → times_of (allow l now a).1 ip ≡ (
        if beq a ip
        then keep_if (is_recent l.window now) (times_of l a) ++ left_by (allow l now a).0 now
        else times_of l ip)
unfolding allow
times_of-allow l now a ip =
    let ts = keep_if (is_recent l.window now) (times_of l a) in
    ground (
      arith,
      append-nil ts,
      times_of-with_times l a ip ts,
      times_of-with_times l a ip (ts ++ now ∷ []),
    )

admitted_from-admit_one :
    (limit window : ℕ) (h : List Request) (now : ℕ) (a ip : Bytes)
    → admitted_from (admit_one limit window h (now, a)) ip ≡ (
        if beq a ip
        then admitted_from h ip ++ left_by (may_enter limit window h (now, a)) now
        else admitted_from h ip)
admitted_from-admit_one limit window h now a ip =
    ground (arith, append-nil (admitted_from h ip), admitted_from-append h (now, a) ip)

recent-allow :
    (l : SourceIpRateLimiter) (h : List Request) (start now later : ℕ) (a ip : Bytes)
    → Follows l h start
    → start ≤ now
    → now ≤ later
    → keep_if (is_recent l.window later) (times_of (allow l now a).1 ip)
      ≡ keep_if
          (is_recent l.window later)
          (admitted_from (admit_one l.max_attempts l.window h (now, a)) ip)
recent-allow l h start now later a ip f o p =
    rw (times_of-allow l now a ip) rw (admitted_from-admit_one l.max_attempts l.window h now a ip)
      rw (allow-may_enter l h start now a f o)
      elim (Bool-cases (beq a ip)) [
        | inl e ↦ rw e (kept ((beq_iff a ip).0 e))
        | inr e ↦ rw e (f.same later ip (omega arith))
      ]
  where
    p_later : ℕ → Bool
    p_later = is_recent l.window later

    left : List ℕ
    left = left_by (may_enter l.max_attempts l.window h (now, a)) now

    kept :
        a ≡ ip
        → keep_if p_later (keep_if (is_recent l.window now) (times_of l a) ++ left)
          ≡ keep_if p_later (admitted_from h ip ++ left)
    kept e =
        keep_if-append p_later (keep_if (is_recent l.window now) (times_of l a)) left
        ∙ ap (λ ts. ts ++ keep_if p_later left)
            (keep_if-twice l.window now later (times_of l a) p
              ∙ ap (λ b. keep_if p_later (times_of l b)) e
              ∙ f.same later ip (omega arith))
        ∙ sym (keep_if-append p_later (admitted_from h ip) left)

allow-Follows :
    (l : SourceIpRateLimiter) (h : List Request) (start now : ℕ) (a : Bytes)
    → Follows l h start
    → start ≤ now
    → Follows (allow l now a).1 (admit_one l.max_attempts l.window h (now, a)) now
allow-Follows l h start now a f o = record {
  same = λ later ip p. rw ((allow-limits l now a).1) (recent-allow l h start now later a ip f o p);
}

allow_all-Follows :
    (l : SourceIpRateLimiter) (h : List Request) (start : ℕ) (rs : List Request)
    → Follows l h start
    → IsOrdered start rs
    → allow_all l rs ≡ admit_all l.max_attempts l.window h rs
allow_all-Follows l h start [] f o = refl
allow_all-Follows l h start ((now, a) ∷ rs) f o =
    let history = admit_one l.max_attempts l.window h (now, a) in
    let rest =
      allow_all-Follows (allow l now a).1 history now rs (allow-Follows l h start now a f o.0)
        o.1 in
    ap₂ ◌∷◌ (allow-may_enter l h start now a f o.0) (
      rest
      ∙ ap₂ (λ m w. admit_all m w history rs) (allow-limits l now a).0 (allow-limits l now a).1)

-- From a new limiter on, and while the clock does not run backwards, every answer is the
-- specification's: a request is admitted exactly when, of all the requests admitted before it, fewer
-- than the limit came from its source within the window. What `allow` forgets never matters.
pub limiter_refines_history :
    (limit window : ℕ) (l : SourceIpRateLimiter) (rs : List Request)
    → make_limiter limit window ≡ ok l
    → IsOrdered 0 rs
    → allow_all l rs ≡ admit_all limit window [] rs
unfolding make_limiter times_of Dict.lookup
limiter_refines_history limit window l rs made o =
    >>=_cases (guard (ltb 0 limit) value_error >> guard (ltb 0 window) value_error) (λ u. _) made
      λ u e g.
        rw (sym (ok-injective g))
          (allow_all-Follows fresh [] 0 rs (record { same = λ now ip p. refl }) o)
  where
    fresh : SourceIpRateLimiter
    fresh = record { max_attempts = limit; window = window; attempts = [] }

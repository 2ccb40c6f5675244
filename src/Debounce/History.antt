-- ===== src/Debounce/History.antt =====
-- The debouncer of debounce.py against the list of all events that it let through.
use secure_sync.Prelude.{
  ℕ, zero, suc, ◌-◌, ◌≤◌, ◌≡◌, refl, ap, ◌∙◌, inl, inr, Bool, true, false, ◌&&◌, ◌||◌, ◌==◌, ltb,
  none, some, List, [], ◌∷◌, ◌++◌, arith, Bool-cases, if◌then◌else◌,
}
use secure_sync.Prelude.Bytes.{Bytes, beq, beq_iff, beq_refl}
use secure_sync.Dict
use secure_sync.Dict.{Dict, IsDict, remove-IsDict, lookup-remove}
use secure_sync.Debounce.{EventDebouncer, evict_stale, is_duplicate, record_key, should_emit}

-- The specification remembers every event that was let through: a key is a duplicate if one of them has it
-- and lies less than the window back.
abbrev pub emitted_within : ℕ → Bytes → ℕ → List (Bytes × ℕ) → Bool
emitted_within window key now [] = false
emitted_within window key now ((k, time) ∷ history) =
    (beq k key && ltb (now - time) window) || emitted_within window key now history

-- The answers to a sequence of events, by the specification and by the code.
abbrev pub spec_run : ℕ → List (Bytes × ℕ) → List (Bytes × ℕ) → List Bool
spec_run window history [] = []
spec_run window history ((key, now) ∷ events) =
    let kept = spec_run window history events in
    let added = spec_run window ((key, now) ∷ history) events in
    if emitted_within window key now history then false ∷ kept else true ∷ added

abbrev pub run : EventDebouncer → List (Bytes × ℕ) → List Bool
run d [] = []
run d ((key, now) ∷ events) = let (emitted, d') = should_emit d key now in emitted ∷ run d' events

-- The times of a sequence of events do not go back.
abbrev pub IsOrdered : ℕ → List (Bytes × ℕ) → Type 0
IsOrdered start [] = Unit {0}
IsOrdered start ((key, now) ∷ events) = (start ≤ now) × IsOrdered now events

later_within :
    (window : ℕ) (key : Bytes) (now later : ℕ) (history : List (Bytes × ℕ))
    → now ≤ later
    → emitted_within window key now history ≡ false
    → emitted_within window key later history ≡ false
later_within window key now later [] h e = refl
later_within window key now later ((k, time) ∷ history) h e =
    ground (arith, h, e, later_within window key now later history h)

-- Evicting changes no later answer.
is_duplicate-evict_stale :
    (window now later : ℕ) (key : Bytes) (seen : Dict ℕ)
    → now ≤ later
    → IsDict seen
    → is_duplicate window later (Dict.lookup key (evict_stale window now seen))
      ≡ is_duplicate window later (Dict.lookup key seen)
unfolding evict_stale is_duplicate Dict.lookup
is_duplicate-evict_stale window now later key [] h d = refl
is_duplicate-evict_stale window now later key ((k, time) ∷ seen) h d =
    ground (arith, h, beq_iff k key, d.0, is_duplicate-evict_stale window now later key seen h d.1)

evict_stale-IsDict :
    (window now : ℕ) (seen : Dict ℕ) → IsDict seen → IsDict (evict_stale window now seen)
unfolding evict_stale
evict_stale-IsDict window now [] d = d
evict_stale-IsDict window now ((k, time) ∷ seen) d = elim (Bool-cases (ltb (now - time) window)) [
  | inl e ↦ rw e d
  | inr e ↦ rw e (evict_stale-IsDict window now seen d.1)
]

lookup-last :
    (key k : Bytes) (now : ℕ) (seen : Dict ℕ)
    → Dict.lookup k (seen ++ (key, now) ∷ [])
      ≡ elim (Dict.lookup k seen) [ some v ↦ some v | none ↦ if beq key k then some now else none ]
unfolding Dict.lookup
lookup-last key k now [] = refl
lookup-last key k now ((j, time) ∷ seen) = ground (arith, lookup-last key k now seen)

append-IsDict :
    (key : Bytes) (now : ℕ) (seen : Dict ℕ)
    → IsDict seen
    → Dict.lookup key seen ≡ none
    → IsDict (seen ++ (key, now) ∷ [])
unfolding Dict.lookup
append-IsDict key now [] d h = (refl, tt)
append-IsDict key now ((j, time) ∷ seen) d h = (
  ground (arith, lookup-last key j now seen, d.0, h, beq_iff j key, beq_iff key j),
  append-IsDict key now seen d.1 (ground (arith, h)),
)

never_within :
    (key : Bytes) (now : ℕ) (history : List (Bytes × ℕ)) → emitted_within 0 key now history ≡ false
never_within key now [] = refl
never_within key now ((k, time) ∷ history) = ground (arith, never_within key now history)

-- The dictionary answers, from a time on, as the history does.
abbrev pub Represents : ℕ → ℕ → Dict ℕ → List (Bytes × ℕ) → Type 0
Represents window start seen history =
    IsDict seen
    × ((key : Bytes) (now : ℕ)
        → start ≤ now
        → is_duplicate window now (Dict.lookup key seen) ≡ emitted_within window key now history)

evict_stale-Represents :
    (window start now : ℕ) (seen : Dict ℕ) (history : List (Bytes × ℕ))
    → start ≤ now
    → Represents window start seen history
    → Represents window now (evict_stale window now seen) history
evict_stale-Represents window start now seen history h (d, same) = (
  evict_stale-IsDict window now seen d,
  λ key later k.
      is_duplicate-evict_stale window now later key seen k d ∙ same key later (omega (arith, h, k)),
)

record_key-Represents :
    (window now : ℕ) (key : Bytes) (seen : Dict ℕ) (history : List (Bytes × ℕ))
    → Represents window now seen history
    → emitted_within window key now history ≡ false
    → Represents window now (record_key key now seen) ((key, now) ∷ history)
unfolding record_key is_duplicate
record_key-Represents window now key seen history (d, same) fresh =
    let left = Dict.remove key seen in
    let absent : Dict.lookup key left ≡ none =
      lookup-remove key key seen ∙ ground (arith, beq_refl key) in
    (
      append-IsDict key now left (remove-IsDict key seen d) absent,
      λ k later h. ground (
        arith,
        lookup-last key k now left,
        lookup-remove key k seen,
        same k later h,
        later_within window key now later history h fresh,
        beq_iff key k,
      ),
    )

run-spec_run :
    (window start : ℕ) (seen : Dict ℕ) (history events : List (Bytes × ℕ))
    → IsOrdered start events
    → Represents (suc window) start seen history
    → run (record { window_seconds = suc window; last_seen = seen }) events
      ≡ spec_run (suc window) history events
unfolding should_emit
run-spec_run window start seen history [] o r = refl
run-spec_run window start seen history ((key, now) ∷ events) o r =
    let left = evict_stale (suc window) now seen in
    let (d, same) = evict_stale-Represents (suc window) start now seen history o.0 r in
    let answer = same key now (omega arith) in
    let positive : (suc window == 0) ≡ false = ground arith in
    elim (Bool-cases (emitted_within (suc window) key now history)) [
      | inl e ↦
          rw (positive, answer ∙ e, e)
            (ap (λ l. false ∷ l) (run-spec_run window now left history events o.1 (d, same)))
      | inr e ↦
          rw (positive, answer ∙ e, e)
            (ap (λ l. true ∷ l)
              (run-spec_run window now (record_key key now left) ((key, now) ∷ history) events o.1
                (record_key-Represents (suc window) now key left history (d, same) e)))
    ]

run-zero :
    (seen : Dict ℕ) (history events : List (Bytes × ℕ))
    → run (record { window_seconds = 0; last_seen = seen }) events ≡ spec_run 0 history events
unfolding should_emit
run-zero seen history [] = refl
run-zero seen history ((key, now) ∷ events) =
    rw (never_within key now history)
      (ap (λ l. true ∷ l) (run-zero seen ((key, now) ∷ history) events))

-- A new debouncer answers every sequence of events, whose times do not go back, as the specification that
-- remembers every event it let through: an event passes unless an event with its key passed less than the
-- window ago.
pub debouncer_refines_history :
    (window start : ℕ) (events : List (Bytes × ℕ))
    → IsOrdered start events
    → run (record { window_seconds = window; last_seen = [] }) events ≡ spec_run window [] events
unfolding is_duplicate Dict.lookup
debouncer_refines_history zero start events o = run-zero [] [] events
debouncer_refines_history (suc window) start events o =
    run-spec_run window start [] [] events o (tt, λ key now h. refl)

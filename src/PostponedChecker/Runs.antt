-- ===== src/PostponedChecker/Runs.antt =====
-- What runs of the check, one after the other, do to the events.
use task_manager.Prelude.{
  ℕ, ◌+◌, ◌≤◌, ◌≡◌, refl, ap, Bool, true, false, ◌||◌, List, [], ◌∷◌, arith, length, if◌then◌else◌,
  is_some, Time, Bool-cases, inl, inr,
}
use task_manager.PostponedChecker.{PostponedEvent, is_due, check_event, check_all}

-- The event is triggered or resolved, or resolves another.
abbrev pub is_settled : PostponedEvent → Bool
is_settled e = is_some e.triggered_at || is_some e.resolved_at || is_some e.resolves

-- The check of one event in a run at an instant.
pub step : Time → PostponedEvent → PostponedEvent × ℕ
step now e = (
  (if is_due now e then (check_event now e).event else e),
  (if is_due now e then length (check_event now e).sent else 0),
)

-- Runs at several instants: the event after them, and how often it is notified.
pub steps : List Time → PostponedEvent → PostponedEvent × ℕ
unfolding step
steps [] e = (e, 0)
steps (t ∷ ts) e = let one = step t e in let rest = steps ts one.0 in (rest.0, one.1 + rest.1)

check_event-settled :
    (now : Time) (e : PostponedEvent)
    → (is_settled (check_event now e).event ≡ true) × (length (check_event now e).sent ≤ 1)
unfolding check_event
check_event-settled now e = ground arith

due-not_settled : (now : Time) (e : PostponedEvent) → is_settled e ≡ true → is_due now e ≡ false
due-not_settled now e h = ground arith

steps-settled : (ts : List Time) (e : PostponedEvent) → is_settled e ≡ true → (steps ts e).1 ≡ 0
unfolding steps
steps-settled [] e h = refl
steps-settled (t ∷ ts) e h = rw (due-not_settled t e h) (omega (arith, steps-settled ts e h))

-- However often and whenever the check runs, an event is notified at most once.
pub steps-once : (ts : List Time) (e : PostponedEvent) → (steps ts e).1 ≤ 1
unfolding steps
steps-once [] e = omega arith
steps-once (t ∷ ts) e = elim (Bool-cases (is_due t e)) [
  | inl b ↦
      let one = check_event-settled t e in
      rw b (omega (arith, one.1, steps-settled ts (check_event t e).event one.0))
  | inr b ↦ rw b (omega (arith, steps-once ts e))
]

-- A second run at the same instant triggers no event, notifies nobody and leaves the events as they
-- are after the first run, whatever the notifications of the first run raised.
pub check_all-quiet :
    (now : Time) (es : List PostponedEvent)
    → let first = check_all now es in
      let second = check_all now first.events in
      (second.triggered_count ≡ 0) × (second.notified ≡ []) × (second.events ≡ first.events)
unfolding check_all
check_all-quiet now [] = (refl, refl, refl)
check_all-quiet now (e ∷ es) =
    let rest = check_all-quiet now es in
    elim (Bool-cases (is_due now e)) [
      | inl b ↦ rw b (
          rw (due-not_settled now (check_event now e).event (check_event-settled now e).0)
            (rest.0, rest.1, ap (λ xs. (check_event now e).event ∷ xs) rest.2))
      | inr b ↦ rw b (rw b (rest.0, rest.1, ap (λ xs. e ∷ xs) rest.2))
    ]

-- ===== src/StatusEvents/Postponed.antt =====
-- What a run of later executions does to a postponed event.
use task_manager.Prelude.{
  ℕ, suc, ◌+◌, ◌≤◌, ◌<◌, ◌≡◌, refl, inl, inr, true, false, not, none, some, List, [], ◌∷◌, ◌++◌,
  arith, length, length-append, ltb, if◌then◌else◌, is_some, count_or_zero, Time, Bool-cases,
}
use task_manager.Status.{Status, failed, succeeded}
use task_manager.StatusEvents.{Policy, StatusEvent, maybe_postpone, update_after_postponed}

-- A run of executions that end with one status, at the given instants: the event after them, and
-- the notifications sent for it.
pub follow : Policy → Status → List Time → StatusEvent → StatusEvent × List StatusEvent
follow p s [] e = (e, [])
follow p s (t ∷ ts) e =
    let u = update_after_postponed p true s t e in
    let rest = follow p s ts u.event in (rest.0, u.sent ++ rest.1)

-- The event waits: it is postponed and neither triggered nor resolved.
abbrev pub IsWaiting : StatusEvent → Type 0
IsWaiting e =
    (is_some e.postponed_until ≡ true)
    × (is_some e.triggered_at ≡ false)
    × (is_some e.resolved_at ≡ false)

update-triggered :
    (p : Policy) (s : Status) (t : Time) (e : StatusEvent)
    → is_some e.triggered_at ≡ true
    → (length (update_after_postponed p true s t e).sent ≡ 0)
      × (is_some (update_after_postponed p true s t e).event.triggered_at ≡ true)
unfolding update_after_postponed
update-triggered p s t e h = ground arith

follow-triggered :
    (p : Policy) (s : Status) (ts : List Time) (e : StatusEvent)
    → is_some e.triggered_at ≡ true
    → length (follow p s ts e).1 ≡ 0
unfolding follow
follow-triggered p s [] e h = refl
follow-triggered p s (t ∷ ts) e h =
    let u = update-triggered p s t e h in
    omega (
      arith,
      u.0,
      follow-triggered p s ts (update_after_postponed p true s t e).event u.1,
      length-append (update_after_postponed p true s t e).sent
          (follow p s ts (update_after_postponed p true s t e).event).1,
    )

update-below :
    (p : Policy) (m k : ℕ) (t : Time) (e : StatusEvent)
    → p.enabled ≡ true
    → p.max_postponed_failure_count ≡ some m
    → e.status ≡ failed
    → IsWaiting e
    → count_or_zero e.count_with_same_status ≡ k
    → suc k < m
    → let u = update_after_postponed p true failed t e in
      IsWaiting u.event
      × (u.event.status ≡ failed)
      × (count_or_zero u.event.count_with_same_status ≡ suc k)
      × (length u.sent ≡ 0)
unfolding update_after_postponed
update-below p m k t e hp hm hs w hk lt = ground arith

update-reaching :
    (p : Policy) (m k : ℕ) (t : Time) (e : StatusEvent)
    → p.enabled ≡ true
    → p.max_postponed_failure_count ≡ some m
    → e.status ≡ failed
    → IsWaiting e
    → count_or_zero e.count_with_same_status ≡ k
    → m ≤ suc k
    → let u = update_after_postponed p true failed t e in
      (is_some u.event.triggered_at ≡ true) × (length u.sent ≡ 1)
unfolding update_after_postponed
update-reaching p m k t e hp hm hs w hk le = ground arith

follow-counted :
    (p : Policy) (m k : ℕ) (ts : List Time) (e : StatusEvent)
    → p.enabled ≡ true
    → p.max_postponed_failure_count ≡ some m
    → e.status ≡ failed
    → IsWaiting e
    → count_or_zero e.count_with_same_status ≡ k
    → k < m
    → length (follow p failed ts e).1 ≡ (if ltb (k + length ts) m then 0 else 1)
unfolding follow
follow-counted p m k [] e hp hm hs w hk lt = ground arith
follow-counted p m k (t ∷ ts) e hp hm hs w hk lt =
    let u = update_after_postponed p true failed t e in
    let both = length-append u.sent (follow p failed ts u.event).1 in
    elim (Bool-cases (ltb (suc k) m)) [
      | inl b ↦
          let below = update-below p m k t e hp hm hs w hk (ground arith) in
          ground (
            arith,
            both,
            below.3,
            follow-counted p m (suc k) ts u.event hp hm below.1 below.0 below.2 (ground arith),
          )
      | inr b ↦
          let done = update-reaching p m k t e hp hm hs w hk (ground arith) in
          ground (arith, both, done.1, follow-triggered p failed ts u.event done.0)
    ]

-- A failure event that is postponed, with no execution counted yet, sends no notification while
-- fewer than max_postponed_failure_count later executions fail and exactly one once that many or
-- more have failed, if the limit is not 0 and the Schedulable is enabled.
pub follow-failures :
    (p : Policy) (m : ℕ) (ts : List Time) (e : StatusEvent)
    → p.enabled ≡ true
    → p.max_postponed_failure_count ≡ some m
    → e.status ≡ failed
    → IsWaiting e
    → count_or_zero e.count_with_same_status ≡ 0
    → 0 < m
    → length (follow p failed ts e).1 ≡ (if ltb (length ts) m then 0 else 1)
follow-failures p m ts e hp hm hs w hk lt =
    ground (arith, follow-counted p m 0 ts e hp hm hs w hk lt)

success-step :
    (p : Policy) (t : Time) (e : StatusEvent)
    → is_some e.triggered_at ≡ false
    → (is_some (update_after_postponed p true succeeded t e).event.triggered_at ≡ false)
      × (length (update_after_postponed p true succeeded t e).sent ≡ 0)
unfolding update_after_postponed
success-step p t e h = ground arith

-- However many later executions succeed, an event that is not triggered stays so, and no
-- notification is sent for it.
pub follow-successes :
    (p : Policy) (ts : List Time) (e : StatusEvent)
    → is_some e.triggered_at ≡ false
    → (is_some (follow p succeeded ts e).0.triggered_at ≡ false)
      × (length (follow p succeeded ts e).1 ≡ 0)
unfolding follow
follow-successes p [] e h = (h, refl)
follow-successes p (t ∷ ts) e h =
    let u = update_after_postponed p true succeeded t e in
    let step = success-step p t e h in
    let rest = follow-successes p ts u.event step.0 in
    (rest.0, omega (arith, step.1, rest.1, length-append u.sent (follow p succeeded ts u.event).1))

-- A new event is postponed exactly when maybe_postpone says so, and triggered exactly when it does
-- not: never both and never neither.
pub maybe_postpone-exclusive :
    (p : Policy) (now : Time) (e : StatusEvent)
    → e.postponed_until ≡ none
    → e.triggered_at ≡ none
    → let r = maybe_postpone p now e in
      (is_some r.1.postponed_until ≡ r.0) × (is_some r.1.triggered_at ≡ not r.0)
unfolding maybe_postpone
maybe_postpone-exclusive p now e hp ht = ground arith

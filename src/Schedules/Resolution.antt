-- ===== src/Schedules/Resolution.antt =====
-- server/processes/models/execution.py, resolve_missing_scheduled_execution_events: what an
-- execution that starts does to the open events of its schedule.
use task_manager.Prelude.{
  ℕ, suc, ◌+◌, ◌-◌, ◌<◌, ◌≡◌, refl, true, false, Option, none, some, List, [], ◌∷◌, ◌++◌, ltb,
  arith, length, if◌then◌else◌, first_some, is_some, lt→ltb, length-append, Time, All, seconds,
}
use task_manager.Schedules.{
  ℤ, pos, same_integer, is_not_positive, is_negative, Calendar, Schedulable, MissingEvent, Range,
  raised, no_range, range, TimeRange, default_max_scheduled_lateness_seconds, execution_time_range,
  missing_count, resolving,
}

-- The events after the loop, and the events that resolve some of them, which are notified.
pub record Resolution : Type 0 where
  pub events : List MissingEvent
  pub notices : List MissingEvent

abbrev pub resolution : MissingEvent → List MissingEvent → Resolution
resolution e notices = record { events = e ∷ []; notices = notices }

-- The count of the event changes. The column is a PositiveIntegerField, and the row is saved before
-- a negative count is replaced: None is the error of the database.
abbrev pub update_count : ℕ → Time → ℤ → MissingEvent → Option Resolution
update_count uuid now missing e =
    let counted = record e { missing_execution_count = missing } in
    let closed = record counted { resolved_at = first_some e.resolved_at (some now) } in
    if is_negative missing
    then none
    else if is_not_positive missing
    then some (resolution closed (resolving uuid closed ∷ []))
    else some (resolution counted [])

abbrev pub resolve_in : Schedulable → ℕ → Time → Range → MissingEvent → Option Resolution
resolve_in s uuid now raised e = none
resolve_in s uuid now no_range e = some (resolution e [])
resolve_in s uuid now (range r) e =
    if same_integer (missing_count s r) e.missing_execution_count
    then some (resolution e [])
    else update_count uuid now (missing_count s r) e

-- The body of the loop, for an execution that started at an instant.
abbrev pub resolve_event : Schedulable → ℕ → Time → Range → Time → MissingEvent → Option Resolution
resolve_event s uuid now r started e =
    if ltb (started - e.expected_execution_at) (seconds default_max_scheduled_lateness_seconds)
    then resolve_in s uuid now r e
    else some (resolution e [])

abbrev pub join : Option Resolution → Option Resolution → Option Resolution
join none rest = none
join (some x) none = none
join (some x) (some y) =
    some (record { events = x.events ++ y.events; notices = x.notices ++ y.notices })

unfoldable pub resolve_all :
    Schedulable → ℕ → Time → Range → Time → List MissingEvent → Option Resolution
resolve_all s uuid now r started [] = some (record { events = []; notices = [] })
resolve_all s uuid now r started (e ∷ es) =
    join (resolve_event s uuid now r started e) (resolve_all s (uuid + 1) now r started es)

-- resolve_missing_scheduled_execution_events for a schedule that is not blank and its open events
-- in order; the identifiers from `uuid` on are fresh
unfoldable pub resolve_missing_scheduled_execution_events :
    Calendar → Schedulable → ℕ → Time → Time → List MissingEvent → Option Resolution
unfolding resolve_all
resolve_missing_scheduled_execution_events calendar s uuid now started events =
    resolve_all s uuid now (execution_time_range calendar s now) started events

-- The event counts missing executions, and was expected less than half an hour before the start.
abbrev pub IsDue : Time → MissingEvent → Type 0
IsDue started e =
    (started - e.expected_execution_at < 1800000000)
    × ((n : ℕ) × (e.missing_execution_count ≡ pos (suc n)))

not-same : (n : ℕ) (a : ℤ) → a ≡ pos (suc n) → same_integer (pos 0) a ≡ false
not-same n a h = ground arith

first_some-now : (o : Option Time) (now : Time) → is_some (first_some o (some now)) ≡ true
first_some-now none now = refl
first_some-now (some t) now = refl

event-IsResolved :
    (s : Schedulable) (uuid : ℕ) (now started : Time) (r : TimeRange) (e : MissingEvent)
    → missing_count s r ≡ pos 0
    → IsDue started e
    → (x : Resolution) × (resolve_event s uuid now (range r) started e ≡ some x)
      × (length x.events ≡ 1)
      × (length x.notices ≡ 1)
      × All (λ (d : MissingEvent). is_some d.resolved_at ≡ true) x.events
event-IsResolved s uuid now started r e hm (lt, (n, hn)) =
    let closed = record e {
      missing_execution_count = pos 0;
      resolved_at = first_some e.resolved_at (some now);
    } in
    (
      resolution closed (resolving uuid closed ∷ []),
      rw (lt→ltb (started - e.expected_execution_at) 1800000000 lt)
          (rw hm (rw (not-same n e.missing_execution_count hn) refl)),
      refl,
      refl,
      (first_some-now e.resolved_at now, tt),
    )

All-append {ℓ κ} :
    {A : Type ℓ} (P : A → Type κ) (xs ys : List A) → All P xs → All P ys → All P (xs ++ ys)
All-append P [] ys h k = k
All-append P (x ∷ xs) ys (p, h) k = (p, All-append P xs ys h k)

abbrev pub IsResolved : MissingEvent → Type 0
IsResolved e = is_some e.resolved_at ≡ true

All-IsResolved :
    (s : Schedulable) (uuid : ℕ) (now started : Time) (r : TimeRange) (es : List MissingEvent)
    → missing_count s r ≡ pos 0
    → All (IsDue started) es
    → (x : Resolution) × (resolve_all s uuid now (range r) started es ≡ some x)
      × All IsResolved x.events
      × (length x.events ≡ length es)
      × (length x.notices ≡ length es)
unfolding resolve_all
All-IsResolved s uuid now started r [] hm h =
    (record { events = []; notices = [] }, refl, tt, refl, refl)
All-IsResolved s uuid now started r (e ∷ es) hm (d, h) =
    let one = event-IsResolved s uuid now started r e hm d in
    let rest = All-IsResolved s (uuid + 1) now started r es hm h in
    (
      record { events = one.0.events ++ rest.0.events; notices = one.0.notices ++ rest.0.notices },
      rw one.1 (rw rest.1 refl),
      All-append IsResolved one.0.events rest.0.events one.4 rest.2,
      omega (arith, length-append one.0.events rest.0.events, one.2, rest.3),
      omega (arith, length-append one.0.notices rest.0.notices, one.3, rest.4),
    )

-- If the time range of now holds exactly as many executions as are required, and each open event
-- counts missing executions and was expected less than half an hour before the execution started,
-- then resolve_missing_scheduled_execution_events returns, every event is resolved, and one
-- notification is sent for each.
pub resolve_missing-IsResolved :
    (calendar : Calendar) (s : Schedulable) (uuid : ℕ) (now started : Time) (r : TimeRange)
    (es : List MissingEvent)
    → execution_time_range calendar s now ≡ range r
    → missing_count s r ≡ pos 0
    → All (IsDue started) es
    → (x : Resolution) × (resolve_missing_scheduled_execution_events calendar s uuid now started es
        ≡ some x)
      × All IsResolved x.events
      × (length x.events ≡ length es)
      × (length x.notices ≡ length es)
unfolding resolve_missing_scheduled_execution_events
resolve_missing-IsResolved calendar s uuid now started r es hr hm h =
    rw hr (All-IsResolved s uuid now started r es hm h)

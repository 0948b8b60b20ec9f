-- ===== src/Schedules.antt =====
-- server/processes/services/schedule_checker.py, models/execution.py, models/task.py and
-- models/workflow.py: the search for executions that a schedule expects and that did not start. An
-- instant before the epoch is 0.
mod Ranges
pub mod Windows
pub mod Alerts
pub mod Resolution
unfoldable pub use Ranges.*
use task_manager.Prelude.{
  ℕ, suc, ◌+◌, ◌-◌, ◌*◌, ◌/◌, max, Bool, true, false, not, ◌&&◌, ◌||◌, Option, none, some, List, [],
  ◌∷◌, ◌++◌, ◌==◌, ltb, leb, if◌then◌else◌, is_some, is_truthy, count_or_zero, first_some, or_else,
  length, select, Time, seconds,
}

abbrev pub is_within : TimeRange → Run → Bool
is_within r x = leb r.from x.started_at && leb x.started_at r.to

-- `max(1, self.scheduled_instance_count or 1)`
abbrev pub required_instance_count : Schedulable → ℕ
required_instance_count s =
    max 1
      (if is_truthy s.scheduled_instance_count then count_or_zero s.scheduled_instance_count else 1)

abbrev pub missing_count : Schedulable → TimeRange → ℤ
missing_count s r = difference (required_instance_count s) (length (select (is_within r) s.runs))

abbrev pub not_before : Option Time → Time → Bool
not_before none t = true
not_before (some u) t = leb t u

-- The queries of Task.concurrency_at and Workflow.concurrency_at.
abbrev pub is_concurrent : Kind → Time → Run → Bool
is_concurrent task t x =
    leb x.started_at t && not_before x.finished_at t && not_before x.marked_done_at t
is_concurrent workflow t x = leb x.started_at t && not_before x.finished_at t

-- concurrency_at with its default cap_to_max_concurrency=True, which counts without a cap
abbrev pub concurrency_at : Schedulable → Time → ℕ
concurrency_at s t = length (select (is_concurrent s.kind t) s.runs)

abbrev pub is_prevented : Option ℕ → ℕ → Bool
is_prevented limit n = is_truthy limit && leb (count_or_zero limit) n

-- lookup_missing_scheduled_execution_events
abbrev pub is_open : Schedulable → MissingEvent → Bool
is_open s e =
    e.for_schedule == s.schedule && not (is_some e.resolved_at) && not (is_some e.resolves)

-- The events of check_executions for a time range.
abbrev pub matches : Schedulable → TimeRange → MissingEvent → Bool
matches s r e = elim s.pattern [
  | cron x ↦ is_open s e && e.expected_execution_at == r.expected
  | rate n u ↦ is_open s e && leb r.from e.expected_execution_at
  | neither ↦ is_open s e && leb r.from e.expected_execution_at
]

-- The order of check_executions: the later event comes first.
abbrev pub precedes : Pattern → MissingEvent → MissingEvent → Bool
precedes (cron x) a b = ltb b.event_at a.event_at
precedes _ a b =
    ltb b.expected_execution_at a.expected_execution_at
    || a.expected_execution_at == b.expected_execution_at && ltb b.event_at a.event_at

abbrev pub earlier_of : Pattern → MissingEvent → Option MissingEvent → Option MissingEvent
earlier_of p a none = some a
earlier_of p a (some b) = if precedes p b a then some b else some a

-- `.first()`
unfoldable pub first : Pattern → List MissingEvent → Option MissingEvent
first p [] = none
first p (e ∷ es) = earlier_of p e (first p es)

abbrev pub put : MissingEvent → List MissingEvent → List MissingEvent
put e [] = e ∷ []
put e (x ∷ xs) = let rest = put e xs in if x.uuid == e.uuid then e ∷ xs else x ∷ rest

-- The event that is returned, the table of events, and the notifications, in order.
pub record Checked : Type 0 where
  pub returned : Option MissingEvent
  pub table : List MissingEvent
  pub notices : List MissingEvent

abbrev pub checked : Option MissingEvent → List MissingEvent → List MissingEvent → Checked
checked e table notices = record { returned = e; table = table; notices = notices }

-- make_resolved_missing_scheduled_execution_event. A new event's event_at is its
-- expected_execution_at, and the count has its default.
abbrev pub resolving : ℕ → MissingEvent → MissingEvent
resolving uuid e = record e {
  uuid = uuid;
  event_at = e.expected_execution_at;
  missing_execution_count = pos 0;
  resolved_at = none;
  resolves = some e.uuid;
}

-- The update of an event that exists. The column of the count is a PositiveIntegerField: the
-- database refuses to save a negative number.
abbrev pub update_event : ℕ → Time → ℤ → MissingEvent → List MissingEvent → Option Checked
update_event uuid now missing e table =
    let counted = record e { missing_execution_count = missing } in
    let closed = record counted { resolved_at = some now } in
    let resolved = resolving uuid closed in
    if is_negative missing
    then none
    else if is_not_positive missing
    then some (checked (some closed) (resolved ∷ put closed table) (resolved ∷ []))
    else some (checked (some counted) (put counted table) [])

abbrev pub new_event : Schedulable → ℕ → TimeRange → ℤ → MissingEvent
new_event s uuid r missing = record {
  uuid = uuid;
  for_schedule = s.schedule;
  expected_execution_at = r.expected;
  event_at = r.expected;
  missing_execution_count = missing;
  resolved_at = none;
  resolves = none;
}

abbrev pub create_event : Schedulable → ℕ → TimeRange → ℤ → List MissingEvent → Checked
create_event s uuid r missing table =
    let e = new_event s uuid r missing in
    if is_not_positive missing
    then checked none table []
    else if is_prevented s.max_concurrency (concurrency_at s r.expected)
    then checked none table []
    else checked (some e) (e ∷ table) []

abbrev pub check_found :
    Schedulable
    → ℕ
    → TimeRange
    → Time
    → ℤ
    → Option MissingEvent
    → List MissingEvent
    → Option Checked
check_found s uuid r now missing none table = some (create_event s uuid r missing table)
check_found s uuid r now missing (some e) table =
    if same_integer missing e.missing_execution_count
    then some (checked none table [])
    else update_event uuid now missing e table

-- check_executions; `uuid` is fresh, and None is an exception
unfoldable pub check_executions :
    Schedulable → ℕ → TimeRange → Time → List MissingEvent → Option Checked
check_executions s uuid r now table =
    check_found s uuid r now (missing_count s r) (first s.pattern (select (matches s r) table))
      table

abbrev pub notify_event : Option MissingEvent → Checked → Checked
notify_event none c = c
notify_event (some e) c = record c { notices = c.notices ++ e ∷ [] }

-- `if mse: schedulable.send_event_notifications(event=mse)`
abbrev pub notify_returned : Option Checked → Option Checked
notify_returned none = none
notify_returned (some c) = some (notify_event c.returned c)

abbrev pub check_range : Schedulable → ℕ → Time → List MissingEvent → Range → Option Checked
check_range s uuid now table raised = none
check_range s uuid now table no_range = some (checked none table [])
check_range s uuid now table (range r) = notify_returned (check_executions s uuid r now table)

-- check_execution_on_time of a schedule that is not blank; None where it raises
unfoldable pub check_execution_on_time :
    Calendar → Schedulable → ℕ → Time → List MissingEvent → Option Checked
check_execution_on_time calendar s uuid now table =
    check_range s uuid now table (execution_time_range calendar s now)

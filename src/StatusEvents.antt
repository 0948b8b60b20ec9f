-- ===== src/StatusEvents.antt =====
-- server/processes/models/execution.py and execution_status_change_event.py: the events that an
-- execution's status gives rise to, their postponement, and what later executions do to them. The
-- rows of an execution or of an executable are lists of events; the instant is an argument.
pub mod Postponed
pub mod Created
use task_manager.Prelude.{
  ℕ, ◌+◌, ◌-◌, Bool, true, false, not, ◌&&◌, ◌||◌, Option, none, some, List, [], ◌∷◌, ◌++◌, ◌==◌,
  ltb, leb, if◌then◌else◌, is_some, is_truthy, count_or_zero, exists_in, Time, seconds,
}
use task_manager.Status.{Status, succeeded, failed, terminated_after_time_out, aborted, same_status}

-- The settings of a Schedulable that events depend on.
pub record Policy : Type 0 where
  pub enabled : Bool
  pub severity_on_success : Option ℕ
  pub severity_on_failure : Option ℕ
  pub severity_on_timeout : Option ℕ
  pub max_postponed_failure_count : Option ℕ
  pub max_postponed_timeout_count : Option ℕ
  pub postponed_failure_before_success_seconds : Option ℕ
  pub postponed_timeout_before_success_seconds : Option ℕ
  pub required_success_count_to_clear_failure : Option ℕ

-- ExecutionStatusChangeEvent
pub record StatusEvent : Type 0 where
  pub status : Status
  pub severity : ℕ
  pub postponed_until : Option Time
  pub triggered_at : Option Time
  pub resolved_at : Option Time
  pub count_with_same_status : Option ℕ
  pub count_with_success_status : Option ℕ

-- `timezone.now() + timedelta(seconds=delay)` of a delay that is not None
abbrev pub later : Time → Option ℕ → Option Time
later now none = none
later now (some delay) = some (now + seconds delay)

-- maybe_postpone: whether the event is postponed, and the saved event
unfoldable pub maybe_postpone : Policy → Time → StatusEvent → Bool × StatusEvent
maybe_postpone p now e =
    if same_status e.status failed
      && is_truthy p.max_postponed_failure_count
      && is_truthy p.postponed_failure_before_success_seconds
    then (true, record e { postponed_until = later now p.postponed_failure_before_success_seconds })
    else if same_status e.status terminated_after_time_out
        && is_truthy p.max_postponed_timeout_count
        && is_truthy p.postponed_timeout_before_success_seconds
    then (true, record e { postponed_until = later now p.postponed_timeout_before_success_seconds })
    else (false, record e { triggered_at = some now })

-- What update_after_postponed returns, the event after it, and the notifications it sends.
pub record Update : Type 0 where
  pub counted : Bool
  pub event : StatusEvent
  pub sent : List StatusEvent

abbrev pub update : Bool → StatusEvent → List StatusEvent → Update
update counted e sent = record { counted = counted; event = e; sent = sent }

-- `(required is not None) and (count >= required)`
abbrev pub reached : Option ℕ → ℕ → Bool
reached none n = false
reached (some limit) n = leb limit n

-- The number of executions with the event's status that triggers it.
abbrev pub threshold_count : Policy → Status → Option ℕ
threshold_count p s =
    if same_status s failed
    then some (count_or_zero p.max_postponed_failure_count)
    else if same_status s terminated_after_time_out
    then some (count_or_zero p.max_postponed_timeout_count)
    else none

abbrev pub count_success : Policy → Time → StatusEvent → Update
count_success p now e =
    let n = count_or_zero e.count_with_success_status + 1 in
    let counted = record e { count_with_success_status = some n } in
    if reached p.required_success_count_to_clear_failure n
    then update true (record counted { resolved_at = some now }) []
    else update true counted []

-- The event's execution, where it still exists, sends the notifications.
abbrev pub count_same : Policy → Bool → Status → Time → StatusEvent → Update
count_same p has_execution s now e =
    let n = count_or_zero e.count_with_same_status + 1 in
    let counted = record e { count_with_same_status = some n } in
    let triggered = record counted { triggered_at = some now } in
    if reached (threshold_count p s) n
    then update true triggered (if has_execution then triggered ∷ [] else [])
    else update false counted []

-- update_after_postponed, where the event's Schedulable exists, and an execution ends with a status
unfoldable pub update_after_postponed : Policy → Bool → Status → Time → StatusEvent → Update
update_after_postponed p has_execution s now e =
    if not (is_some e.postponed_until)
    then update false e []
    else if is_some e.resolved_at
    then update false e []
    else if is_some e.triggered_at
    then update false e []
    else if not p.enabled
    then update false e []
    else if same_status s succeeded
    then count_success p now e
    else if same_status s e.status
    then count_same p has_execution s now e
    else update false e []

abbrev pub is_after : Option Time → Time → Bool
is_after none now = false
is_after (some t) now = ltb now t

-- The filter of update_postponed_status_change_events.
abbrev pub is_pending : Time → StatusEvent → Bool
is_pending now e =
    is_after e.postponed_until now && not (is_some e.resolved_at) && not (is_some e.triggered_at)

-- The number of events counted, the events after it, and the notifications sent.
pub record Updates : Type 0 where
  pub total : ℕ
  pub events : List StatusEvent
  pub notices : List StatusEvent

abbrev pub prepend : Update → Updates → Updates
prepend u rest = record {
  total = (if u.counted then 1 else 0) + rest.total;
  events = u.event ∷ rest.events;
  notices = u.sent ++ rest.notices;
}

unfoldable pub update_all : Policy → Status → Time → List StatusEvent → Updates
update_all p s now [] = record { total = 0; events = []; notices = [] }
update_all p s now (e ∷ es) =
    let rest = update_all p s now es in
    if is_pending now e
    then prepend (update_after_postponed p true s now e) rest
    else prepend (update false e []) rest

-- update_postponed_status_change_events of an executable's events
unfoldable pub update_postponed_status_change_events :
    Option Policy → Status → Time → List StatusEvent → Updates
update_postponed_status_change_events none s now es = record {
  total = 0;
  events = es;
  notices = [];
}
update_postponed_status_change_events (some p) s now es =
    if not p.enabled then record { total = 0; events = es; notices = [] } else update_all p s now es

-- The fields of an Execution that decide on its events, with aws_ecs_service_updated_at of the Task
-- of a TaskExecution; for a WorkflowExecution that is none.
pub record Finished : Type 0 where
  pub status : Status
  pub started_at : Time
  pub aws_ecs_service_updated_at : Option Time
  pub finished_at : Option Time
  pub skip_event_generation : Bool

abbrev pub max_status_change_age_seconds : ℕ
max_status_change_age_seconds = 604800

abbrev pub older : Option Time → Time → Bool
older none now = false
older (some t) now = ltb (seconds max_status_change_age_seconds) (now - t)

abbrev pub has_status : Status → StatusEvent → Bool
has_status s e = same_status e.status s

-- An execution that was aborted had been started before its service was updated.
abbrev pub is_superseded : Finished → Bool
is_superseded x =
    same_status x.status aborted
    && elim x.aws_ecs_service_updated_at [ none ↦ false | some updated ↦ ltb x.started_at updated ]

-- should_create_status_change_event of a TaskExecution, with the execution's events
unfoldable pub should_create_status_change_event :
    Policy → Finished → Time → List StatusEvent → Bool
should_create_status_change_event p x now es =
    if is_superseded x
    then false
    else if x.skip_event_generation
    then false
    else if older x.finished_at now
    then false
    else if not p.enabled
    then false
    else if exists_in (has_status x.status) es
    then false
    else true

-- The severity for a status: Event.Severity.ERROR where there is no setting.
abbrev pub severity_for : Policy → Status → Option ℕ
severity_for p s =
    if same_status s succeeded
    then p.severity_on_success
    else if same_status s failed
    then p.severity_on_failure
    else if same_status s terminated_after_time_out
    then p.severity_on_timeout
    else some 500

abbrev pub new_event : Status → ℕ → StatusEvent
new_event s severity = record {
  status = s;
  severity = severity;
  postponed_until = none;
  triggered_at = none;
  resolved_at = none;
  count_with_same_status = some 0;
  count_with_success_status = some 0;
}

-- The event that is created, the execution's events after it, and the notifications sent.
pub record Creation : Type 0 where
  pub created : Option StatusEvent
  pub all_events : List StatusEvent
  pub notified : List StatusEvent

abbrev pub created_or_postponed : Bool × StatusEvent → List StatusEvent → Creation
created_or_postponed (true, e) es = record { created = some e; all_events = e ∷ es; notified = [] }
created_or_postponed (false, e) es = record {
  created = some e;
  all_events = e ∷ es;
  notified = e ∷ [];
}

abbrev pub create_with : Policy → Status → Time → List StatusEvent → Option ℕ → Creation
create_with p s now es none = record { created = none; all_events = es; notified = [] }
create_with p s now es (some severity) =
    if severity == 0
    then record { created = none; all_events = es; notified = [] }
    else created_or_postponed (maybe_postpone p now (new_event s severity)) es

-- maybe_create_and_send_status_change_event
unfoldable pub maybe_create_and_send_status_change_event :
    Option Policy → Finished → Time → List StatusEvent → Creation
maybe_create_and_send_status_change_event none x now es = record {
  created = none;
  all_events = es;
  notified = [];
}
maybe_create_and_send_status_change_event (some p) x now es =
    if not (should_create_status_change_event p x now es)
    then record { created = none; all_events = es; notified = [] }
    else create_with p x.status now es (severity_for p x.status)

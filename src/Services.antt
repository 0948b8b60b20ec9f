-- ===== src/Services.antt =====
-- server/processes/services/service_concurrency_checker.py: events for services that had too few
-- running instances. Instants are numbers; what the dictionary of intervals answers is a parameter.
pub mod Least
pub mod Counts
pub mod Closed
pub mod Instances
pub mod Series
use mathlib.Core.Option as Option
use task_manager.Prelude.{
  ℕ, ◌+◌, ◌-◌, ◌%◌, suc, min, max, Bool, true, false, not, ◌&&◌, ◌||◌, Option, none, some, List, [],
  ◌∷◌, ◌++◌, ltb, leb, ◌==◌, if◌then◌else◌, is_some, is_truthy, or_else, first_some, select, map,
  Time, seconds,
}

-- The columns of a TaskExecution that the checker reads.
pub record Run : Type 0 where
  pub started_at : Option Time
  pub finished_at : Option Time
  pub marked_done_at : Option Time
  pub kill_started_at : Option Time
  pub kill_finished_at : Option Time

-- The columns of the service, which is a Task.
pub record Service : Type 0 where
  pub created_at : Time
  pub aws_ecs_service_updated_at : Option Time
  pub max_manual_start_delay_before_alert_seconds : Option ℕ
  pub min_service_instance_count : Option ℕ
  pub severity_on_insufficient_instances : Option ℕ
  pub severity_on_sufficient_instances_restored : Option ℕ

-- InsufficientServiceTaskExecutionsEvent
pub record Event : Type 0 where
  pub ident : ℕ
  pub severity : ℕ
  pub interval_start_at : Time
  pub interval_end_at : Time
  pub detected_concurrency : ℕ
  pub required_concurrency : ℕ
  pub detected_at : Time
  pub resolved_event : Option ℕ
  pub resolved_at : Option Time

abbrev pub lookback_duration_seconds : ℕ
lookback_duration_seconds = 300

abbrev pub default_max_startup_duration_seconds : ℕ
default_max_startup_duration_seconds = 300

-- Event.Severity.DEBUG
abbrev pub severity_debug : ℕ
severity_debug = 100

-- `max_manual_start_delay_before_alert_seconds or DEFAULT_MAX_STARTUP_DURATION_SECONDS`
abbrev pub max_delay : Service → ℕ
max_delay s =
    if is_truthy s.max_manual_start_delay_before_alert_seconds
    then or_else s.max_manual_start_delay_before_alert_seconds 0
    else default_max_startup_duration_seconds

-- The start of the interval that is checked; its end is now.
unfoldable pub interval_start : Time → Service → Time
interval_start now s =
    max (now - seconds lookback_duration_seconds)
      (or_else s.aws_ecs_service_updated_at s.created_at + seconds (max_delay s))

-- `field__gte=start_dt` or `field__isnull=True`
abbrev pub not_before : Time → Option Time → Bool
not_before start none = true
not_before start (some t) = leb start t

-- The query's filter.
abbrev pub is_relevant : Time → Run → Bool
is_relevant start r =
    not_before start r.finished_at
    && not_before start r.marked_done_at
    && not_before start r.kill_started_at

-- An interval, closed at its start, in which one instance ran; at its end it is closed or open.
pub record Span : Type 0 where
  pub lower : Time
  pub upper : Time
  pub is_closed : Bool

abbrev pub done_at : Run → Option Time
done_at r =
    first_some r.finished_at
      (first_some r.marked_done_at (first_some r.kill_started_at r.kill_finished_at))

abbrev pub span_until : Time → Time → Option Time → Span
span_until start now none = record { lower = start; upper = now; is_closed = true }
span_until start now (some t) = record { lower = start; upper = min t now; is_closed = false }

-- The interval of an execution; `none` where `started_at` is None and has no timestamp
unfoldable pub span_of : Time → Time → Run → Option Span
span_of start now r = elim r.started_at [
  | none ↦ none
  | some t ↦ some (span_until (min (max t start) now) now (done_at r))
]

abbrev pub cons_both : Option Span → Option (List Span) → Option (List Span)
cons_both none spans = none
cons_both (some s) none = none
cons_both (some s) (some spans) = some (s ∷ spans)

unfoldable pub all_spans : Time → Time → List Run → Option (List Span)
unfolding span_of
all_spans start now [] = some []
all_spans start now (r ∷ rs) = cons_both (span_of start now r) (all_spans start now rs)

-- An item of the dictionary: the bounds of a set of instants, and how many spans cover each of
-- them.
pub record Item : Type 0 where
  pub lower : Time
  pub upper : Time
  pub concurrency : ℕ

-- The loop over the items: the last of those with the least concurrency.
abbrev pub least_of : Option Item → Item → Option Item
least_of none item = some item
least_of (some best) item = if leb item.concurrency best.concurrency then some item else some best

unfoldable pub least_item : Option Item → List Item → Option Item
least_item best [] = best
least_item best (i ∷ is) = least_item (least_of best i) is

-- `datetime.replace(microsecond=0)`
abbrev pub whole_second : Time → Time
whole_second t = t - t % 1000000

-- The events after the check, the newest first, and those that notifications are sent for.
pub record Checked : Type 0 where
  pub events : List Event
  pub sent : List Event

abbrev pub is_open : Event → Bool
is_open e = not (is_some e.resolved_at)

abbrev pub new_event : ℕ → ℕ → Time → ℕ → Item → Event
new_event ident severity now required item = record {
  ident = ident;
  severity = severity;
  interval_start_at = whole_second item.lower;
  interval_end_at = whole_second item.upper;
  detected_concurrency = item.concurrency;
  required_concurrency = required;
  detected_at = now;
  resolved_event = none;
  resolved_at = none;
}

abbrev pub last_is_open : List Event → Bool
last_is_open [] = false
last_is_open (e ∷ es) = is_open e

-- `event.resolved_at = utc_now`
abbrev pub resolve : Time → Event → Event
resolve now e = record e { resolved_at = some now }

abbrev pub restored_severity : Service → ℕ
restored_severity s =
    if is_truthy s.severity_on_sufficient_instances_restored
    then or_else s.severity_on_sufficient_instances_restored 0
    else severity_debug

abbrev pub resolving_event : ℕ → Service → Time → ℕ → Event → Event
resolving_event ident s now concurrency e = record {
  ident = ident;
  severity = restored_severity s;
  interval_start_at = e.interval_start_at;
  interval_end_at = e.interval_end_at;
  detected_concurrency = concurrency;
  required_concurrency = e.required_concurrency;
  detected_at = now;
  resolved_event = some e.ident;
  resolved_at = some now;
}

unfoldable pub resolving_events : ℕ → Service → Time → ℕ → List Event → List Event
resolving_events next s now concurrency [] = []
resolving_events next s now concurrency (e ∷ es) =
    let here = resolving_events next s now concurrency es in
    let later = resolving_events (suc next) s now concurrency es in
    if is_open e then later ++ (resolving_event next s now concurrency e ∷ []) else here

abbrev pub resolve_open : Time → List Event → List Event
resolve_open now es = map (λ e. if is_open e then resolve now e else e) es

abbrev pub unchanged : List Event → Checked
unchanged es = record { events = es; sent = [] }

abbrev pub is_insufficient : Service → Item → Bool
is_insufficient s item = elim s.min_service_instance_count [
  | none ↦ false
  | some required ↦ ltb item.concurrency required
]

-- What follows from the least concurrency; `next` is the id of the next event.
unfoldable pub handle_least : ℕ → Service → Time → List Event → Option Item → Checked
unfolding resolving_events
handle_least next s now es none = unchanged es
handle_least next s now es (some item) =
    if is_insufficient s item
    then (if last_is_open es
        then unchanged es
        else (let e =
              new_event next (or_else s.severity_on_insufficient_instances 0) now
                (or_else s.min_service_instance_count 0) item in
            record { events = e ∷ es; sent = e ∷ [] }))
    else (let added = resolving_events next s now item.concurrency es in
        record { events = added ++ resolve_open now es; sent = added })

-- check_service, given what IntervalDict answers for the interval and the spans; `none` is an
-- exception, after which the events are as before
unfoldable pub check_service :
    (Time → Time → List Span → List Item)
    → ℕ
    → Service
    → Time
    → List Run
    → List Event
    → Option Checked
unfolding interval_start all_spans least_item handle_least
check_service items next s now runs es =
    let start = interval_start now s in
    if leb now start
    then some (unchanged es)
    else Option.map (λ spans. handle_least next s now es (least_item none (items start now spans)))
        (all_spans start now (select (is_relevant start) runs))

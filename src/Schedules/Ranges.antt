-- ===== src/Schedules/Ranges.antt =====
-- server/processes/services/schedule_checker.py, execution_time_range, and the rows that the
-- schedule checker reads. The matches of CRON_REGEX and RATE_REGEX on a schedule are data; CronTab
-- and relativedelta are parameters.
use task_manager.Prelude.{
  ℕ, ◌+◌, ◌-◌, ◌*◌, ◌/◌, Bool, true, false, Option, none, some, List, ◌==◌, ltb, leb, if◌then◌else◌,
  Time, seconds,
}

-- An integer: a number of missing executions is negative where there are more than needed.
pub data ℤ : Type 0 where
  pos negsuc : ℕ → ℤ

abbrev pub difference : ℕ → ℕ → ℤ
difference a b = if leb b a then pos (a - b) else negsuc (b - a - 1)

abbrev pub same_integer : ℤ → ℤ → Bool
same_integer (pos a) (pos b) = a == b
same_integer (negsuc a) (negsuc b) = a == b
same_integer _ _ = false

-- `n <= 0`
abbrev pub is_not_positive : ℤ → Bool
is_not_positive (pos n) = n == 0
is_not_positive (negsuc n) = true

abbrev pub is_negative : ℤ → Bool
is_negative (pos n) = false
is_negative (negsuc n) = true

-- The time units of make_relative_delta, in the singular and in lower case.
pub data TimeUnit : Type 0 where
  second minute hour day month year unknown : TimeUnit

-- `relativedelta` with one of its arguments given
pub record RelativeDelta : Type 0 where
  pub amount : ℕ
  pub granularity : TimeUnit

-- What the regular expressions find in a schedule.
pub data Pattern : Type 0 where
  cron : ℕ → Pattern
  rate : ℕ → TimeUnit → Pattern
  neither : Pattern

-- What CronTab says of the last instant at which an expression fires before another instant.
pub data Previous : Type 0 where
  parse_error never : Previous
  ago : ℕ → Previous

-- CronTab's and relativedelta's part.
pub record Calendar : Type 0 where
  pub previous : ℕ → Time → Previous
  pub plus : Time → RelativeDelta → Time
  pub minus : Time → RelativeDelta → Time

-- The executions that a Schedulable's queries read.
pub record Run : Type 0 where
  pub started_at : Time
  pub finished_at : Option Time
  pub marked_done_at : Option Time

-- Task and Workflow differ in the executions that count as concurrent.
pub data Kind : Type 0 where
  task workflow : Kind

-- A negative `max_concurrency` acts as 0 does.
pub record Schedulable : Type 0 where
  pub kind : Kind
  pub schedule : ℕ
  pub pattern : Pattern
  pub schedule_updated_at : Time
  pub scheduled_instance_count : Option ℕ
  pub max_concurrency : Option ℕ
  pub runs : List Run

-- MissingScheduledExecutionEvent
pub record MissingEvent : Type 0 where
  pub uuid : ℕ
  pub for_schedule : ℕ
  pub expected_execution_at : Time
  pub event_at : Time
  pub missing_execution_count : ℤ
  pub resolved_at : Option Time
  pub resolves : Option ℕ

abbrev pub min_delay_between_expected_and_actual_seconds : ℕ
min_delay_between_expected_and_actual_seconds = 300

abbrev pub default_max_early_startup_seconds : ℕ
default_max_early_startup_seconds = 60

abbrev pub default_max_scheduled_lateness_seconds : ℕ
default_max_scheduled_lateness_seconds = 1800

-- make_relative_delta; None where it raises
abbrev pub make_relative_delta : ℕ → TimeUnit → Option RelativeDelta
make_relative_delta n unknown = none
make_relative_delta n u = some (record { amount = n; granularity = u })

pub record TimeRange : Type 0 where
  pub expected : Time
  pub from : Time
  pub to : Time

-- What execution_time_range returns or raises.
pub data Range : Type 0 where
  raised no_range : Range
  range : TimeRange → Range

-- The instant rounded to the nearest second.
abbrev pub rounded : Time → Time
rounded t = (t + 500000) / 1000000 * 1000000

-- The last lines: nothing is expected from before the schedule was updated.
abbrev pub range_since : Time → Time → Time → Time → Range
range_since updated expected from to =
    if ltb expected updated
    then no_range
    else range (record { expected = rounded expected; from = from; to = to })

abbrev pub cron_range : Time → Time → Previous → Range
cron_range updated now parse_error = raised
cron_range updated now never = no_range
cron_range updated now (ago delay) =
    let expected = now - delay in
    if ltb delay (seconds min_delay_between_expected_and_actual_seconds)
    then no_range
    else range_since updated expected (expected - seconds default_max_early_startup_seconds)
        (expected + seconds default_max_scheduled_lateness_seconds)

-- A `relativedelta` of nothing is false, and the schedule counts as neither cron nor rate.
abbrev pub rate_range : Calendar → Time → Time → Option RelativeDelta → Range
rate_range calendar updated now none = raised
rate_range calendar updated now (some delta) =
    if delta.amount == 0
    then raised
    else if ltb now (calendar.plus updated delta)
    then no_range
    else range_since updated now
        (calendar.minus now delta - seconds default_max_early_startup_seconds) now

abbrev pub pattern_range : Calendar → Time → Time → Pattern → Range
pattern_range calendar updated now (cron e) = cron_range updated now (calendar.previous e now)
pattern_range calendar updated now (rate n u) =
    rate_range calendar updated now (make_relative_delta n u)
pattern_range calendar updated now neither = raised

-- execution_time_range
unfoldable pub execution_time_range : Calendar → Schedulable → Time → Range
execution_time_range calendar s now = pattern_range calendar s.schedule_updated_at now s.pattern

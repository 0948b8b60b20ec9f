-- ===== src/Samples/Timetables.antt =====
-- The theorems on schedules at a schedule of one execution a night.
use task_manager.Prelude.{ℕ, ◌-◌, ◌≤◌, ◌≡◌, refl, none, some, [], ◌∷◌, arith, All, length}
use task_manager.Schedules.{
  pos, cron, ago, Calendar, task, Schedulable, MissingEvent, TimeRange, execution_time_range,
  checked, Checked, check_executions,
}
use task_manager.Schedules.Windows.{IsWindowOf, execution_time_range-window}
use task_manager.Schedules.Alerts.{check_executions-reports_once}
use task_manager.Schedules.Resolution.{
  Resolution, IsResolved, resolve_missing_scheduled_execution_events, resolve_missing-IsResolved,
}

-- An expression that fired ten minutes ago.
abbrev calendar : Calendar
calendar = record { previous = λ e now. ago 600000000; plus = λ t d. t; minus = λ t d. t }

abbrev nightly : Schedulable
nightly = record {
  kind = task;
  schedule = 1;
  pattern = cron 1;
  schedule_updated_at = 0;
  scheduled_instance_count = none;
  max_concurrency = none;
  runs = [];
}

abbrev window : TimeRange
window = record { expected = 400000000; from = 340000000; to = 2200000000 }

execution_time_range-window_example :
    (delay : ℕ) × (ago 600000000 ≡ ago delay)
    × (300000000 ≤ delay)
    × (0 ≤ 1000000000 - delay)
    × IsWindowOf (1000000000 - delay) window
unfolding execution_time_range
execution_time_range-window_example =
    execution_time_range-window calendar nightly 1 1000000000 window refl refl

abbrev open_event : MissingEvent
open_event = record {
  uuid = 2;
  for_schedule = 1;
  expected_execution_at = 400000000;
  event_at = 400000000;
  missing_execution_count = pos 1;
  resolved_at = none;
  resolves = none;
}

-- Two executions started in the window, where one is expected.
check_executions-reports_once_example :
    (c : Checked) × (check_executions nightly 2 window 1000000000 [] ≡ some c)
    × (check_executions nightly 3 window 2000000000 c.table ≡ some (checked none c.table []))
check_executions-reports_once_example =
    check_executions-reports_once nightly 2 3 1 window 1000000000 2000000000 [] refl refl

abbrev ran_once : Schedulable
ran_once = record nightly {
  runs = record { started_at = 400000000; finished_at = none; marked_done_at = none } ∷ [];
}

resolve_missing-IsResolved_example :
    (x : Resolution) × (resolve_missing_scheduled_execution_events calendar ran_once 3 1000000000
        400000000
        (open_event ∷ [])
      ≡ some x)
    × All IsResolved x.events
    × (length x.events ≡ 1)
    × (length x.notices ≡ 1)
unfolding execution_time_range
resolve_missing-IsResolved_example =
    resolve_missing-IsResolved calendar ran_once 3 1000000000 400000000 window (open_event ∷ [])
      refl refl ((omega arith, (0, refl)), tt)

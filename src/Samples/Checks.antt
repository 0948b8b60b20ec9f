-- ===== src/Samples/Checks.antt =====
-- The theorems on the periodic check, the usage limits and the rate limits at sample settings.
use task_manager.Prelude.{◌≡◌, refl, true, false, none, some, List, [], ◌∷◌, select}
use task_manager.Status.{Status, succeeded, stopping, manually_started}
use task_manager.Checker.{TaskSettings, Execution, check_task_execution}
use task_manager.Checker.Transitions.{
  Checked, check_task_execution-Checked, check_task_execution-overwrites,
}
use task_manager.Limits.{default_limits, Subscription, is_current, compute_usage_limits}
use task_manager.Limits.Totals.{Limit, limit, plans, limit_or_default, compute_usage_limits-limit}

abbrev settings : TaskSettings
settings = record {
  enabled = true;
  max_age_seconds = some 10;
  max_manual_start_delay_before_alert_seconds = some 60;
  max_manual_start_delay_before_abandonment_seconds = some 120;
  max_heartbeat_lateness_before_alert_seconds = some 5;
  max_heartbeat_lateness_before_abandonment_seconds = some 10;
  severity_on_missing_heartbeat = some 500;
  aws_ecs_service_updated_at = none;
}

abbrev started_with : Status → Execution
started_with s = record {
  status = s;
  created_at = 0;
  started_at = 1000000;
  finished_at = none;
  marked_done_at = none;
  last_heartbeat_at = some 2000000;
  heartbeat_interval_seconds = some 3;
  stop_reason = none;
  skip_event_generation = false;
}

check_task_execution-Checked_example :
    let o =
      check_task_execution settings false none
        (300000000, 300000000, 300000000)
        (started_with manually_started) in
    Checked (started_with manually_started) o.execution o.effects
check_task_execution-Checked_example =
    check_task_execution-Checked settings false none 300000000 300000000 300000000
      (started_with manually_started)

check_task_execution-overwrites_example :
    (check_task_execution settings false none
      (300000000, 300000000, 300000000)
      (started_with succeeded)).execution.status
    ≡ stopping
check_task_execution-overwrites_example =
    check_task_execution-overwrites settings false none 300000000 300000000 300000000
      (started_with succeeded) refl refl refl refl

abbrev subscribed : List Subscription
subscribed =
    record {
      group = some 4;
      plan = some default_limits;
      active = true;
      start_at = 0;
      end_at = none;
    }
    ∷ []

compute_usage_limits-limit_example :
    limit Limit.users (compute_usage_limits 4 100 subscribed)
    ≡ limit_or_default Limit.users (plans (select (is_current 4 100) subscribed))
compute_usage_limits-limit_example = compute_usage_limits-limit Limit.users 4 100 subscribed

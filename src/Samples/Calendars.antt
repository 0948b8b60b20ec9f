-- ===== src/Samples/Calendars.antt =====
-- The theorem on the schedules of workflows, where a Workflow's schedule is changed.
use task_manager.Prelude.{◌≡◌, refl, ap, true, false, none, some, [], Option}
use task_manager.Limits.{default_limits}
use task_manager.Workflow.Timing.{
  cron, rate, RunEnvironment, Row, success, Events, pre_save_workflow,
  run_environment_for_scheduling,
}
use task_manager.Workflow.Timing.Rules.{rule_of, pre_save_workflow-rule_after, HasRule}
use task_manager.Workflow.Timing.Requests.{rule_after}

abbrev cloud : RunEnvironment
cloud = record {
  ident = 3;
  can_schedule_workflow = true;
  has_aws_settings = true;
  has_starter_settings = true;
}

abbrev nightly : Row
nightly = record {
  uuid = 9;
  is_saved = true;
  enabled = true;
  schedule = some (cron 2);
  schedule_updated_at = none;
  run_environment = none;
  scheduling_run_environment = some cloud;
  task_run_environments = [];
  aws_scheduled_execution_rule_name = some 9;
  aws_scheduled_event_rule_arn = some 4;
  aws_event_target_rule_name = some 9;
  aws_event_target_id = some 9;
}

abbrev hourly : Row
hourly = record nightly { schedule = some (rate 1); enabled = false }

abbrev willing_events : Events
willing_events = record { answer = λ e r. success; rule_arn = 5 }

nightly-HasRule :
    (o : Row) → ◌≡◌ {A = Option Row} (some nightly) (some o) → HasRule (λ i. some (cron 2, true)) o
nightly-HasRule o h f s e = ap (λ (x : Option Row). elim x [ none ↦ none | some r ↦ rule_of r ]) h

pre_save_workflow-rule_after_example :
    rule_after 3
      (some (cron 2, true))
      (pre_save_workflow willing_events default_limits 0 7 (some nightly) hourly).calls
    ≡ some (rate 1, false)
unfolding run_environment_for_scheduling pre_save_workflow
pre_save_workflow-rule_after_example =
    pre_save_workflow-rule_after willing_events default_limits 0 7 (some nightly) hourly (rate 1)
      cloud (λ i. some (cron 2, true)) refl refl nightly-HasRule refl

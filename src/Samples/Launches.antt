-- ===== src/Samples/Launches.antt =====
-- The theorems on the environment of an execution, on clones of a workflow, and on the settings of
-- a Task.
use mathlib.Core.Option as Option
use task_manager.Prelude.{◌≡◌, refl, true, false, none, some, [], ◌∷◌, arith}
use task_manager.Merge.{null, boolean, string}
use task_manager.Environment.{Python, lookup, make_environment, wrapper_vars}
use task_manager.Environment as Environment
use task_manager.Environment.Overrides.{lookup-make_environment}
use task_manager.Workflow.Store.{Workflow}
use task_manager.Tasks.{
  Task, ExecutionMethod, has_active_managed_scheduled_execution, synchronize_scheduled,
}
use task_manager.Tasks.Agreement.{Agrees}
use task_manager.Tasks.Scheduling.{synchronize_scheduled-Agrees}
use task_manager.Tasks.Defaults.{base_method, should_update_or_force_recreate-UpdatesChanges}
use task_manager.Tasks.Validation.{Setup, validate}
use task_manager.Tasks.Validation.Consistent.{
  Consistent, nothing_given, validate-IsConsistent, validate-restarts, validate-unschedules,
}
use task_manager.Tasks.Updates.{validate-Agrees}

abbrev python : Python
python = record { str_int = λ n. "n"; str_float = λ n. "f"; str_json = λ v. "v"; dumps = λ o. "j" }

abbrev launched_task : Environment.Task
launched_task = record {
  name = "report";
  run_environment_name = some "staging";
  default_input_value = none;
  managed_probability = 1;
  failure_report_probability = 1;
  timeout_report_probability = 1;
  heartbeat_interval_seconds = some 60;
  environment_variables_overrides =
      some (("LEVEL", boolean true) ∷ ("PROC_WRAPPER_API_KEY", null) ∷ []);
}

abbrev launched : Environment.Execution
launched = record {
  uuid = "e1";
  deployment = none;
  input_value = none;
  wrapper_log_level = none;
  process_command = "run";
  is_service = some false;
  process_max_retries = none;
  process_retry_delay_seconds = none;
  process_timeout_seconds = some 0;
  process_termination_grace_period_seconds = some 30;
  task_max_concurrency = none;
  max_conflicting_age_seconds = none;
  prevent_offline_execution = none;
  api_key = "k";
  heartbeat_interval_seconds = none;
  api_request_timeout_seconds = none;
  api_retry_delay_seconds = some 1;
  api_resume_delay_seconds = some 2;
  api_error_timeout_seconds = none;
  api_task_execution_creation_error_timeout_seconds = none;
  api_task_execution_creation_conflict_timeout_seconds = none;
  api_task_execution_creation_conflict_retry_delay_seconds = none;
  api_final_update_timeout_seconds = none;
  api_max_retries_for_final_update = none;
  api_max_retries_for_process_creation_conflict = none;
  status_update_port = none;
  status_update_interval_seconds = none;
  status_update_message_max_bytes = none;
  environment_variables_overrides = some (("LEVEL", string 4) ∷ []);
}

lookup-make_environment_example :
    lookup "LEVEL" (make_environment python launched_task launched true true) ≡ some "v"
lookup-make_environment_example = lookup-make_environment python launched_task launched true "LEVEL"

-- An execution method whose calls all return.
abbrev willing : ExecutionMethod
willing = record base_method {
  supports_scheduling = true;
  setup_scheduled = λ t force. some (some 5);
}

abbrev scheduled : Task
scheduled = record {
  execution_method_type = 1;
  passive = false;
  enabled = true;
  schedule = some 3;
  scheduling_provider_type = 0;
  scheduled_instance_count = some 1;
  is_scheduling_managed = some true;
  scheduling_settings = some 5;
  schedule_updated_at = none;
  is_service = false;
  is_service_managed = none;
  service_settings = none;
  aws_ecs_service_updated_at = none;
}

abbrev rescheduled : Task
rescheduled = record scheduled { schedule = some 4 }

synchronize_scheduled-Agrees_example :
    Agrees true (synchronize_scheduled (λ t. willing) (some scheduled) (some scheduled) rescheduled)
unfolding has_active_managed_scheduled_execution
synchronize_scheduled-Agrees_example =
    synchronize_scheduled-Agrees (λ t. willing) (some scheduled) rescheduled true
      (should_update_or_force_recreate-UpdatesChanges willing refl) (λ h n. ground arith) refl

abbrev scheduled_setup : Setup
scheduled_setup = record {
  service_instance_count = none;
  min_service_instance_count = none;
  is_service_managed = none;
  schedule = some 3;
  scheduled_instance_count = some 1;
  is_scheduling_managed = some true;
}

abbrev service_setup : Setup
service_setup = record {
  service_instance_count = some 0;
  min_service_instance_count = some 0;
  is_service_managed = none;
  schedule = none;
  scheduled_instance_count = none;
  is_scheduling_managed = none;
}

validate-Agrees_example :
    Agrees true (synchronize_scheduled (λ t. willing) (some scheduled) (some scheduled) rescheduled)
unfolding has_active_managed_scheduled_execution validate
validate-Agrees_example =
    validate-Agrees (λ t. willing) (record nothing_given { schedule = some (some 4) })
      scheduled_setup (record scheduled_setup { schedule = some 4 }) scheduled rescheduled true
      (should_update_or_force_recreate-UpdatesChanges willing refl) (refl, refl) refl (refl, refl)
      refl

validate-IsConsistent_example : Consistent (validate nothing_given (some scheduled_setup))
validate-IsConsistent_example = validate-IsConsistent nothing_given (some scheduled_setup)

validate-restarts_example :
    Option.map
      (λ (v : Setup). v.service_instance_count)
      (validate nothing_given (some service_setup))
    ≡ some (some 1)
validate-restarts_example = validate-restarts service_setup refl refl

validate-unschedules_example :
    Option.map
      (λ (v : Setup). v.schedule)
      (validate (record nothing_given { scheduled_instance_count = some 2 }) (some scheduled_setup))
    ≡ some none
validate-unschedules_example = validate-unschedules scheduled_setup 2 (omega arith)

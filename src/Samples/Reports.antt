-- ===== src/Samples/Reports.antt =====
-- The theorems on events, reports and merges at sample values.
use task_manager.Prelude.{ℕ, ◌≡◌, refl, true, false, Option, none, some, [], ◌∷◌, arith, length}
use task_manager.Status.{Status, failed, stopping, manually_started}
use task_manager.StatusEvents.{
  Policy, StatusEvent, Finished, maybe_create_and_send_status_change_event,
}
use task_manager.StatusEvents.Postponed.{follow, follow-failures}
use task_manager.StatusEvents.Created.{OnePerStatus, maybe_create-OnePerStatus}
use task_manager.Merge.{Fields, null, number, object, field, no_fields, get, deepmerge}
use task_manager.Merge.Objects.{IsDistinct, merged, deepmerge-get}
use task_manager.Reporting.{process_command, Row, Data, Owner, Client, update_report}
use task_manager.Reporting.Transitions.{moved, saved_status, WhenSaved, update_report-moved}
use task_manager.Reporting.Protection.{update_report-protects}

abbrev policy : Policy
policy = record {
  enabled = true;
  severity_on_success = none;
  severity_on_failure = some 500;
  severity_on_timeout = some 400;
  max_postponed_failure_count = some 2;
  max_postponed_timeout_count = none;
  postponed_failure_before_success_seconds = some 60;
  postponed_timeout_before_success_seconds = none;
  required_success_count_to_clear_failure = some 1;
}

abbrev event_with : Option ℕ → StatusEvent
event_with postponed = record {
  status = failed;
  severity = 500;
  postponed_until = postponed;
  triggered_at = none;
  resolved_at = none;
  count_with_same_status = some 0;
  count_with_success_status = some 0;
}

follow-failures_example :
    length (follow policy failed (1 ∷ 2 ∷ 3 ∷ []) (event_with (some 99))).1 ≡ 1
follow-failures_example =
    follow-failures policy 2 (1 ∷ 2 ∷ 3 ∷ []) (event_with (some 99)) refl refl refl
      (refl, refl, refl) refl (omega arith)

abbrev just_failed : Finished
just_failed = record {
  status = failed;
  started_at = 500000;
  aws_ecs_service_updated_at = none;
  finished_at = some 1000000;
  skip_event_generation = false;
}

maybe_create-OnePerStatus_example :
    OnePerStatus
      (maybe_create_and_send_status_change_event (some policy) just_failed 2000000 []).all_events
maybe_create-OnePerStatus_example =
    maybe_create-OnePerStatus (some policy) just_failed 2000000 [] (λ s. omega arith)

abbrev old_fields : Fields
old_fields = field 1 (number 10) (field 2 (object (field 3 null no_fields)) no_fields)

abbrev new_fields : Fields
new_fields = field 2 (object (field 4 (number 5) no_fields)) no_fields

deepmerge-get_example :
    (m : Fields) × (deepmerge false true (object old_fields) (object new_fields) ≡ object m)
    × (get 2 m ≡ merged false true (get 2 old_fields) (get 2 new_fields))
unfolding IsDistinct get
deepmerge-get_example = deepmerge-get false true 2 old_fields new_fields (refl, tt)

abbrev pub owner : Owner
owner = record { was_auto_created = false; passive = false }

abbrev pub client : Client
client = record { base_url = 1; key = some 2 }

abbrev pub row_with : Status → Row
row_with s = record {
  task = 6;
  status = s;
  last_heartbeat_at = none;
  columns = λ a. some 8;
  documents = λ a. null;
  settings = λ a. some 9;
}

abbrev pub report_with : Option Status → Data
report_with s = record {
  task_given = some 6;
  status_given = s;
  heartbeat_given = none;
  columns_given = λ a. none;
  documents_given = λ a. none;
  settings_given = λ a. some (some 10);
  environment_variables_overrides = [];
}

update_report-moved_example :
    saved_status
      (update_report owner client true 5000000 (row_with stopping) (report_with (some failed)))
    ≡ moved stopping (some failed)
update_report-moved_example =
    update_report-moved owner client 5000000 (row_with stopping) (report_with (some failed)) refl

-- It changes a column, and gives the settings as they are.
abbrev harmless_report : Data
harmless_report = record (report_with none) {
  columns_given = λ a. some (some 3);
  settings_given = λ a. some (some 9);
}

update_report-protects_example :
    WhenSaved
      (λ after. after.settings process_command ≡ some 9)
      (update_report owner client false 5000000 (row_with manually_started) harmless_report)
update_report-protects_example =
    update_report-protects owner client 5000000 (row_with manually_started) harmless_report
      process_command refl refl refl

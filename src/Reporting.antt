-- ===== src/Reporting.antt =====
-- server/processes/serializers/task_execution_serializer.py: how a client's report creates or
-- updates a task execution. `validated_data` is a record that tells a missing entry from None;
-- instants, numbers and ids are numbers, and the strings that are compared are lists of code
-- points.
pub mod Transitions
pub mod Protection
use task_manager.Prelude.{
  ℕ, Bool, true, false, not, ◌&&◌, ◌||◌, Option, none, some, List, [], ◌∷◌, ◌==◌, if◌then◌else◌,
  is_some, or_else, exists_in, Time,
}
use task_manager.Status.{
  Status, running, succeeded, failed, terminated_after_time_out, exited_after_marked_done, stopping,
  stopped, manually_started, aborted, same_status, status_in, is_in_progress,
}
use task_manager.Merge.{Json, null, deepmerge}

-- TaskExecution.UNMODIFIABLE_ATTRIBUTES
pub data Unmodifiable : Type 0 where
  started_at started_by finished_at : Unmodifiable
  kill_started_at kill_finished_at kill_error_code killed_by : Unmodifiable
  marked_outdated_at marked_done_at marked_done_by : Unmodifiable

-- TaskExecution.MERGED_ATTRIBUTES
pub data Merged : Type 0 where
  infrastructure_settings execution_method_details other_runtime_metadata : Merged

-- TaskExecution.ATTRIBUTES_REQUIRING_DEVELOPER_ACCESS_FOR_UPDATE
pub data Protected : Type 0 where
  process_command task_max_concurrency prevent_offline_execution api_base_url api_key : Protected
  api_request_timeout_seconds api_retry_delay_seconds api_resume_delay_seconds : Protected
  api_error_timeout_seconds api_task_execution_creation_error_timeout_seconds : Protected
  api_task_execution_creation_conflict_timeout_seconds : Protected
  api_task_execution_creation_conflict_retry_delay_seconds : Protected
  api_final_update_timeout_seconds : Protected

abbrev pub protected_attributes : List Protected
protected_attributes =
    process_command ∷ task_max_concurrency ∷ prevent_offline_execution ∷ api_base_url ∷ api_key
    ∷ api_request_timeout_seconds ∷ api_retry_delay_seconds ∷ api_resume_delay_seconds
    ∷ api_error_timeout_seconds ∷ api_task_execution_creation_error_timeout_seconds
    ∷ api_task_execution_creation_conflict_timeout_seconds
    ∷ api_task_execution_creation_conflict_retry_delay_seconds ∷ api_final_update_timeout_seconds
    ∷ []

-- The columns of a TaskExecution that a report reads or writes.
pub record Row : Type 0 where
  pub task : ℕ
  pub status : Status
  pub last_heartbeat_at : Option Time
  pub columns : Unmodifiable → Option ℕ
  pub documents : Merged → Json
  pub settings : Protected → Option ℕ

-- `validated_data`
pub record Data : Type 0 where
  pub task_given : Option ℕ
  pub status_given : Option Status
  pub heartbeat_given : Option (Option Time)
  pub columns_given : Unmodifiable → Option (Option ℕ)
  pub documents_given : Merged → Option Json
  pub settings_given : Protected → Option (Option ℕ)
  pub environment_variables_overrides : List (List ℕ)

-- What a report leads to: a saved execution, or an error response.
pub data Response : Type 0 where
  saved : Row → Response
  unprocessable conflict permission_denied : Response

abbrev pub set_finished :
    Time → (Unmodifiable → Option (Option ℕ)) → Unmodifiable → Option (Option ℕ)
set_finished now given finished_at = some (some now)
set_finished now given a = given a

-- `validated_data['finished_at'] = now`
abbrev pub finish : Time → Data → Data
finish now d = record d { columns_given = set_finished now d.columns_given }

abbrev pub finished_given : Data → Bool
finished_given d = is_some (d.columns_given finished_at)

-- The statuses of a report that are checked against the existing status.
abbrev pub is_final_report : Status → Bool
is_final_report s = status_in s (succeeded ∷ failed ∷ terminated_after_time_out ∷ aborted ∷ [])

abbrev pub heartbeat_now : Time → Data → Data
heartbeat_now now d =
    if is_some d.heartbeat_given then d else record d { heartbeat_given = some (some now) }

abbrev pub stop_at : Time → Data → Data
stop_at now d = finish now (record d { status_given = some stopped })

-- A report of RUNNING, or without a status; None where it is a conflict.
abbrev pub accept_running : Status → Time → Data → Option Data
accept_running existing now d =
    if same_status existing stopping
    then some (heartbeat_now now (stop_at now d))
    else if not (is_in_progress existing)
    then none
    else some (heartbeat_now now d)

abbrev pub override_stopped : Status → Status → Data → Data
override_stopped request existing d =
    if (same_status request failed || same_status request aborted) && same_status existing stopping
    then record d { status_given = some stopped }
    else d

abbrev pub finish_unless : Bool → Time → Data → Data
finish_unless has_finished now d = if finished_given d || has_finished then d else finish now d

abbrev pub accept_final : Status → Status → Bool → Time → Data → Option Data
accept_final request existing has_finished now d =
    if not (status_in existing (request ∷ running ∷ manually_started ∷ stopping ∷ []))
    then none
    else some (finish_unless has_finished now (override_stopped request existing d))

-- The part of `update` that depends on the status.
unfoldable pub accept : Row → Time → Data → Option Data
accept row now d =
    let request = or_else d.status_given running in
    if same_status request running
    then accept_running row.status now d
    else if is_final_report request
    then accept_final request row.status (is_some (row.columns finished_at)) now d
    else some d

-- The loop over UNMODIFIABLE_ATTRIBUTES: a column that is set is not in the data.
abbrev pub drop_unmodifiable : Row → Data → Data
drop_unmodifiable row d = record d {
  columns_given = λ a. if is_some (row.columns a) then none else d.columns_given a;
}

abbrev pub merge_document : Json → Option Json → Option Json
merge_document v none = none
merge_document null (some s) = some s
merge_document v (some s) = some (deepmerge false false v s)

-- The loop over MERGED_ATTRIBUTES.
abbrev pub merge_documents : Row → Data → Data
merge_documents row d = record d {
  documents_given = λ a. merge_document (row.documents a) (d.documents_given a);
}

-- `name.startswith(prefix)`
abbrev pub starts_with : List ℕ → List ℕ → Bool
starts_with [] name = true
starts_with (c ∷ prefix) [] = false
starts_with (c ∷ prefix) (x ∷ name) = (c == x) && starts_with prefix name

-- "PROC_WRAPPER_"
abbrev pub proc_wrapper : List ℕ
proc_wrapper = 80 ∷ 82 ∷ 79 ∷ 67 ∷ 95 ∷ 87 ∷ 82 ∷ 65 ∷ 80 ∷ 80 ∷ 69 ∷ 82 ∷ 95 ∷ []

abbrev pub same_setting : Option ℕ → Option ℕ → Bool
same_setting none none = true
same_setting none (some y) = false
same_setting (some x) none = false
same_setting (some x) (some y) = x == y

-- The attribute is in the data, and differs from that of the execution where one exists.
abbrev pub is_changed : Option Row → Data → Protected → Bool
is_changed none d a = is_some (d.settings_given a)
is_changed (some row) d a = elim (d.settings_given a) [
  | none ↦ false
  | some v ↦ not (same_setting (row.settings a) v)
]

-- What protect_attributes reads of the Task.
pub record Owner : Type 0 where
  pub was_auto_created : Bool
  pub passive : Bool

abbrev pub effective_status : Option Row → Data → Option Status
effective_status none d = d.status_given
effective_status (some row) d = some (or_else d.status_given row.status)

abbrev pub is_manually_started : Option Status → Bool
is_manually_started none = false
is_manually_started (some s) = same_status s manually_started

-- protect_attributes: whether the user's access level is checked
unfoldable pub needs_developer : Owner → Option Row → Data → Bool
needs_developer task row d =
    if task.was_auto_created && task.passive
    then false
    else if not (is_manually_started (effective_status row d))
    then false
    else exists_in (is_changed row d) protected_attributes
      || exists_in (starts_with proc_wrapper) d.environment_variables_overrides

-- EXTERNAL_BASE_URL, and the key of the request's token where it has one
pub record Client : Type 0 where
  pub base_url : ℕ
  pub key : Option ℕ

abbrev pub set_client : Client → (Protected → Option (Option ℕ)) → Protected → Option (Option ℕ)
set_client client given api_base_url = some (some client.base_url)
set_client client given api_key = elim client.key [ none ↦ given api_key | some k ↦ some (some k) ]
set_client client given a = given a

-- update_api_client_implicit_info
abbrev pub update_api_client_implicit_info : Client → Data → Data
update_api_client_implicit_info client d = record d {
  settings_given = set_client client d.settings_given;
}

-- `setattr` of every entry of the data, and the save
abbrev pub write : Row → Data → Row
write row d = record {
  task = or_else d.task_given row.task;
  status = or_else d.status_given row.status;
  last_heartbeat_at = or_else d.heartbeat_given row.last_heartbeat_at;
  columns = λ a. or_else (d.columns_given a) (row.columns a);
  documents = λ a. or_else (d.documents_given a) (row.documents a);
  settings = λ a. or_else (d.settings_given a) (row.settings a);
}

-- `has_access` says whether ensure_group_access_level finds the user to be a developer.
abbrev pub save_protected : Owner → Client → Bool → Row → Data → Response
save_protected task client has_access row d =
    if needs_developer task (some row) d && not has_access
    then permission_denied
    else saved (write row (update_api_client_implicit_info client d))

abbrev pub continue_update : Owner → Client → Bool → Row → Option Data → Response
continue_update task client has_access row none = conflict
continue_update task client has_access row (some d) =
    save_protected task client has_access row (merge_documents row (drop_unmodifiable row d))

abbrev pub is_other_task : Option ℕ → ℕ → Bool
is_other_task none task = false
is_other_task (some t) task = not (t == task)

-- update
unfoldable pub update_report : Owner → Client → Bool → Time → Row → Data → Response
update_report task client has_access now row d =
    if is_other_task d.task_given row.task
    then unprocessable
    else continue_update task client has_access row (accept row now d)

-- The defaults of `create`, by the status of the report.
abbrev pub with_defaults : Time → Data → Data
with_defaults now d =
    let request = or_else d.status_given running in
    if same_status request running
    then (if is_some (or_else d.heartbeat_given none)
        then d
        else record d { heartbeat_given = some (some now) })
    else if is_final_report request || same_status request exited_after_marked_done
    then (if finished_given d then d else finish now d)
    else d

-- create: the data that the new execution is made of, None where permission is denied
unfoldable pub create_report : Owner → Client → Bool → Time → Data → Option Data
create_report task client has_access now d =
    let completed = with_defaults now d in
    if needs_developer task none completed && not has_access
    then none
    else some (update_api_client_implicit_info client completed)

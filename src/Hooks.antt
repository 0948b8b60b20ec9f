-- ===== src/Hooks.antt =====
-- server/processes/models/task_execution.py: the signal handlers of a saved TaskExecution, as the
-- effects that they have on other parts, in order. The handlers of errors in two of these parts
-- only log, and an exception of another one ends the handler of a save; enrich_settings, which asks
-- the execution method, is left out.
pub mod Sequences
use task_manager.Prelude.{
  ℕ, ◌+◌, ◌-◌, max, Bool, true, false, not, ◌&&◌, ◌||◌, Option, none, some, List, [], ◌∷◌, ◌++◌,
  ltb, if◌then◌else◌, is_some, is_truthy, count_or_zero, first_some, or_else, Time, seconds,
}
use task_manager.Status.{
  Status, running, succeeded, failed, manually_started, stopping, stopped, status_in, same_status,
  is_in_progress, StopReason, workflow_execution_stopped, workflow_execution_retried, same_reason,
}

-- The columns that the handlers read or write.
pub record Row : Type 0 where
  pub status : Status
  pub started_at : Option Time
  pub last_heartbeat_at : Option Time
  pub stop_reason : Option StopReason
  pub killed_by : Option ℕ
  pub kill_started_at : Option Time
  pub kill_finished_at : Option Time

-- The task's heartbeat settings.
pub record Heartbeats : Type 0 where
  pub heartbeat_interval_seconds : Option ℕ
  pub max_heartbeat_lateness_before_alert_seconds : Option ℕ

-- The workflow's side of the execution: WorkflowTaskInstanceExecution with its WorkflowExecution.
pub record Membership : Type 0 where
  pub use_task_notification_profiles : Bool
  pub workflow_status : Status
  pub workflow_started_at : Time
  pub workflow_last_heartbeat_at : Option Time

pub data Effect : Type 0 where
  purge_history resolve_delayed_start set_latest resolve_missing resolve_heartbeat : Effect
  update_postponed create_status_change handle_finished : Effect
  save_workflow : Time → Effect

abbrev pub was_started : Option Row → Bool
was_started none = false
was_started (some old) = is_some old.started_at

-- pre_save_task_execution: `created` says that the row is new, `loaded` is `_loaded_copy`
unfoldable pub pre_save : Bool → Option Row → Option ℕ → Time → Row → List Effect × Row
pre_save created loaded user now x =
    let effects =
      if created
      then purge_history ∷ []
      else if is_some x.started_at && not (was_started loaded)
      then resolve_delayed_start ∷ []
      else [] in
    if same_status x.status stopping
    then (
      effects,
      record x {
        killed_by = first_some x.killed_by user;
        kill_started_at = some (or_else x.kill_started_at now);
      },
    )
    else if same_status x.status stopped
    then (effects, record x { kill_finished_at = some (or_else x.kill_finished_at now) })
    else (effects, x)

-- The heartbeat is in time, or none is expected any more.
abbrev pub is_settled : ℕ → Option ℕ → Bool → Time → Option Time → Bool
is_settled interval lateness live now none = false
is_settled interval none live now (some beat) = false
is_settled interval (some late) live now (some beat) =
    not live || ltb (now - beat) (seconds (interval + late))

abbrev pub heartbeat_effects : Heartbeats → Bool → Time → Row → List Effect
heartbeat_effects task unresolved now x =
    if is_truthy task.heartbeat_interval_seconds
      && is_settled (count_or_zero task.heartbeat_interval_seconds)
          task.max_heartbeat_lateness_before_alert_seconds (is_in_progress x.status) now
          x.last_heartbeat_at
      && unresolved
    then resolve_heartbeat ∷ []
    else []

abbrev pub was_in_progress : Option Row → Bool
was_in_progress none = true
was_in_progress (some old) = is_in_progress old.status

abbrev pub notifies : Option Membership → Bool
notifies none = true
notifies (some m) = m.use_task_notification_profiles

abbrev pub status_effects : Option Row → Option Membership → Row → List Effect
status_effects loaded m x =
    if was_in_progress loaded && not (is_in_progress x.status) && notifies m
    then update_postponed ∷ create_status_change ∷ []
    else []

abbrev pub stopped_by_workflow : Option StopReason → Bool
stopped_by_workflow none = false
stopped_by_workflow (some r) =
    same_reason r workflow_execution_stopped || same_reason r workflow_execution_retried

-- is_execution_continuation_allowed
abbrev pub continues : Status → Bool
continues s = status_in s (manually_started ∷ running ∷ succeeded ∷ failed ∷ [])

abbrev pub finished_effects : Membership → Row → List Effect
finished_effects m x =
    if is_in_progress x.status
    then []
    else if stopped_by_workflow x.stop_reason
    then []
    else if continues m.workflow_status
    then handle_finished ∷ []
    else []

abbrev pub workflow_effects : Option Membership → Time → Row → List Effect
workflow_effects none now x = []
workflow_effects (some m) now x =
    save_workflow (
      max (or_else m.workflow_last_heartbeat_at m.workflow_started_at)
        (or_else x.last_heartbeat_at now))
    ∷ finished_effects m x

-- What is done in order. An exception of update_postponed or create_status_change is caught and only
-- logged; one of another effect ends the handler, so that what follows is not done.
abbrev pub is_guarded : Effect → Bool
is_guarded update_postponed = true
is_guarded create_status_change = true
is_guarded _ = false

unfoldable pub run : (Effect → Bool) → List Effect → List Effect
run raises [] = []
run raises (e ∷ es) =
    let rest = run raises es in if raises e && not (is_guarded e) then e ∷ [] else e ∷ rest

-- The effects of post_save_task_execution; `unresolved` says that a heartbeat event is not yet
-- resolved.
unfoldable pub post_effects :
    Heartbeats → Option Membership → Bool → Time → Option Row → Row → List Effect
post_effects task m unresolved now loaded x =
    (if is_in_progress x.status then set_latest ∷ [] else [])
    ++ ((if is_some x.started_at && not (was_started loaded) then resolve_missing ∷ [] else [])
        ++ (heartbeat_effects task unresolved now x
            ++ (status_effects loaded m x ++ workflow_effects m now x)))

-- post_save_task_execution; `raises` says which effects raise an exception. The next copy that is
-- loaded is the row, in any case.
unfoldable pub post_save :
    (Effect → Bool) → Heartbeats → Option Membership → Bool → Time → Option Row → Row → List Effect
unfolding run post_effects
post_save raises task m unresolved now loaded x =
    run raises (post_effects task m unresolved now loaded x)

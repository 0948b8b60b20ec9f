-- ===== src/Workflow/Saving.antt =====
-- server/processes/models/workflow_execution.py: saving a workflow execution with its signal
-- handlers, stopping its task executions and checking for its completion; and the start of a task
-- instance. Each instant is the same `now`.
use task_manager.Prelude.{
  ℕ, ◌+◌, Bool, true, false, not, ◌&&◌, Option, none, some, [], ◌∷◌, ◌++◌, if◌then◌else◌, is_some,
}
use task_manager.Status.{
  Status, StopReason, running, failed, terminated_after_time_out, stopping, stopped, same_status,
  is_in_progress, workflow_execution_stopped,
}
use task_manager.Workflow.Types.{TaskInstance}
use task_manager.Workflow.Completion.{compute_updated_status}
use task_manager.Workflow.Store.{WorkflowExecution, put_workflow_execution, currents}
use task_manager.Workflow.Rows.{Env, set_db, set_self, stop_runs, start_rows}
use task_manager.Workflow.Action.{
  status_changed, resolve_missing_scheduled, State, launch_failed, return, raise, Action, pure,
  modify, ◌>>◌,
}

module _ (env : Env) where
  open env use {workflow, now, user, launch, saves_run}

  -- stop_running_task_executions
  unfoldable pub stop_running : StopReason → Action (Unit {0})
  unfolding stop_runs
  stop_running reason s = (
    return tt,
    record s {
      db = record s.db {
        task_runs =
            stop_runs saves_run reason now user s.self.ident s.db.instance_runs s.db.task_runs;
      };
    },
  )

  -- handle_stop_requested
  unfoldable pub handle_stop_requested : Action (Unit {0})
  unfolding stop_running
  handle_stop_requested = do
    set_self (λ e. record e { status = stopped; finished_at = some now })
    stop_running workflow_execution_stopped

  abbrev pub loaded_status_is : Status → Option WorkflowExecution → Bool
  loaded_status_is status none = false
  loaded_status_is status (some e) = same_status e.status status

  abbrev pub was_in_progress : Option WorkflowExecution → Bool
  was_in_progress none = true
  was_in_progress (some e) = is_in_progress e.status

  abbrev pub had_started : Option WorkflowExecution → Bool
  had_started none = false
  had_started (some e) = is_some e.started_at

  -- pre_save_workflow_execution of a saved object
  abbrev pub pre_save : Action (Unit {0})
  pre_save s =
      (if loaded_status_is running s.loaded && same_status s.self.status stopping
          then handle_stop_requested
          else pure tt)
        s

  -- post_save_workflow_execution
  abbrev pub post_save : Action (Unit {0})
  post_save s = (
    return tt,
    record s {
      loaded = some s.self;
      notices =
          (s.notices
            ++ (if is_some s.self.started_at && not (had_started s.loaded)
                then resolve_missing_scheduled s.self.ident ∷ []
                else []))
          ++ (if was_in_progress s.loaded && not (is_in_progress s.self.status)
              then status_changed s.self.ident s.self.status ∷ []
              else []);
    },
  )

  -- `self.save()`, with the two signal handlers
  unfoldable pub save : Action (Unit {0})
  unfolding handle_stop_requested put_workflow_execution
  save = do
    pre_save
    modify (λ s. record s {
      db = record s.db {
        workflow_executions = put_workflow_execution s.self s.db.workflow_executions;
      };
    })
    post_save

  -- The new status and counters of check_if_complete, when the status changes.
  abbrev pub complete : Status → WorkflowExecution → WorkflowExecution
  complete status e = record e {
    status = status;
    finished_at = if is_some e.finished_at then e.finished_at else some now;
    failed_attempts =
        if same_status status failed then e.failed_attempts + 1 else e.failed_attempts;
    timed_out_attempts =
        if same_status status terminated_after_time_out
        then e.timed_out_attempts + 1
        else e.timed_out_attempts;
  }

  unfoldable pub updated_status : Bool → State → Status
  unfolding compute_updated_status currents
  updated_status pending s =
      compute_updated_status s.self.status
        (currents workflow s.self.ident s.db.task_runs s.db.evaluations s.db.instance_runs) pending

  unfoldable pub move_to : Status → Action Bool
  unfolding save
  move_to updated s =
      (if same_status updated s.self.status
          then pure (not (is_in_progress updated))
          else if is_in_progress updated
          then set_self (λ e. record e { status = updated }) >> pure false
          else (set_self (complete updated) >> save) >> pure true)
        s

  -- check_if_complete(is_pending_transition_activation)
  unfoldable pub check_if_complete : Bool → Action Bool
  unfolding updated_status move_to
  check_if_complete pending s = move_to (updated_status pending s) s

  -- `task_execution.manually_start()`
  abbrev pub launch_run : ℕ → Action (Unit {0})
  launch_run i s =
      let (launched, db) = launch i s.db in
      (if launched then return tt else raise launch_failed, record s { db = db })

  -- WorkflowTaskInstance.start
  unfoldable pub start : TaskInstance → Action (Unit {0})
  unfolding start_rows
  start wti s = (set_db (start_rows s.self.ident wti) >> launch_run s.db.next_ident) s

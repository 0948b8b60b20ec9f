-- ===== src/Workflow/Completion.antt =====
-- server/processes/models/workflow_execution.py, WorkflowExecution.compute_updated_status: the
-- status of a running workflow execution from the latest executions of its task instances.
pub mod Verdict
use task_manager.Prelude.{Bool, true, false, not, ◌&&◌, ◌||◌, List, [], ◌∷◌, if◌then◌else◌}
use task_manager.Status.{
  Status, running, succeeded, failed, terminated_after_time_out, same_status, is_in_progress,
  is_unsuccessful,
}
use task_manager.Workflow.Types.{TaskInstance, FailureBehavior, TimeoutBehavior}

-- A latest, not successful WorkflowTaskInstanceExecution: its task instance, the status of its
-- task execution, and whether an outbound transition of it was activated.
pub record Current : Type 0 where
  pub task_instance : TaskInstance
  pub status : Status
  pub was_handled : Bool

-- The variables that the loop carries: `updated_status_if_not_running`, and whether
-- `running_task_execution` is set.
pub record Loop : Type 0 where
  pub updated : Status
  pub has_running : Bool

-- A round of the loop returns from the function, or goes on.
pub data Round : Type 0 where
  return_now : Status → Round
  go_on : Loop → Round

-- The timeout is ignored, or a transition handled it and that is enough.
abbrev pub timeout_excused : TimeoutBehavior → Bool → Bool
timeout_excused TimeoutBehavior.ignore handled = true
timeout_excused TimeoutBehavior.fail_workflow_if_unhandled handled = handled
timeout_excused TimeoutBehavior.timeout_workflow_if_unhandled handled = handled
timeout_excused _ handled = false

-- What a timeout that is not excused makes of `updated_status_if_not_running`.
abbrev pub after_timeout : TimeoutBehavior → Status → Status
after_timeout TimeoutBehavior.fail_workflow_always updated = failed
after_timeout TimeoutBehavior.fail_workflow_if_unhandled updated = failed
after_timeout TimeoutBehavior.timeout_workflow_always updated =
    if same_status updated running then terminated_after_time_out else updated
after_timeout TimeoutBehavior.timeout_workflow_if_unhandled updated =
    if same_status updated running then terminated_after_time_out else updated
after_timeout TimeoutBehavior.ignore updated = updated

-- The failure is ignored, or a transition handled it and that is enough.
abbrev pub failure_excused : FailureBehavior → Bool → Bool
failure_excused FailureBehavior.ignore handled = true
failure_excused FailureBehavior.fail_workflow_if_unhandled handled = handled
failure_excused FailureBehavior.fail_workflow_always handled = false

-- The last test of a round: a status of TERMINATED_AFTER_TIME_OUT may return at once.
abbrev pub finish_round : TaskInstance → Loop → Round
finish_round wti loop =
    if same_status loop.updated terminated_after_time_out
    then if wti.allow_workflow_execution_after_timeout
      then go_on loop
      else return_now terminated_after_time_out
    else go_on loop

-- The body of the loop for one execution.
pub visit : Current → Loop → Round
visit current loop =
    let wti = current.task_instance in
    if is_in_progress current.status
    then go_on (record loop { has_running = true })
    else if same_status current.status terminated_after_time_out
    then finish_round wti (
        if timeout_excused wti.timeout_behavior current.was_handled
        then loop
        else record loop { updated = after_timeout wti.timeout_behavior loop.updated })
    else if is_unsuccessful current.status
    then if failure_excused wti.failure_behavior current.was_handled
      then finish_round wti loop
      else if wti.allow_workflow_execution_after_failure
      then finish_round wti (record loop { updated = failed })
      else return_now failed
    else finish_round wti loop

-- A return ends the loop; else the rest of it is run.
abbrev pub and_then : Round → (Loop → Round) → Round
and_then (return_now status) rest = return_now status
and_then (go_on loop) rest = rest loop

-- `for wtie in current_executions`
pub visit_all : List Current → Loop → Round
unfolding visit
visit_all [] loop = go_on loop
visit_all (current ∷ rest) loop = and_then (visit current loop) (visit_all rest)

-- What follows the loop.
abbrev pub after_loop : Bool → Round → Status
after_loop pending (return_now status) = status
after_loop pending (go_on loop) =
    if pending then running else if loop.has_running then running else loop.updated

-- compute_updated_status(is_pending_transition_activation), for `self.status` and the latest
-- executions that did not succeed.
unfoldable pub compute_updated_status : Status → List Current → Bool → Status
unfolding visit_all
compute_updated_status status currents pending =
    if not (same_status status running)
    then status
    else after_loop pending
        (visit_all currents (record { updated = succeeded; has_running = false }))

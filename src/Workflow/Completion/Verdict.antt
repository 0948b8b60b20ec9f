-- ===== src/Workflow/Completion/Verdict.antt =====
-- What compute_updated_status decides, described without the loop.
use task_manager.Prelude.{
  ◌≡◌, ◌≢◌, refl, ap, ◌∙◌, ◌⊎◌, inl, inr, Bool, true, false, not, ◌&&◌, ◌||◌, List, [], ◌∷◌,
  if◌then◌else◌, exists_in, arith, Bool-cases,
}
use task_manager.Status.{
  Status, running, succeeded, failed, terminated_after_time_out, same_status, is_in_progress,
  is_unsuccessful,
}
use task_manager.Workflow.Types.{TimeoutBehavior}
use task_manager.Workflow.Completion.{
  Current, Loop, return_now, go_on, timeout_excused, failure_excused, and_then, after_loop, visit,
  visit_all, compute_updated_status,
}

-- The timeout behaviors that fail the workflow.
abbrev pub timeout_fails : TimeoutBehavior → Bool
timeout_fails TimeoutBehavior.fail_workflow_always = true
timeout_fails TimeoutBehavior.fail_workflow_if_unhandled = true
timeout_fails _ = false

-- The execution timed out, unexcused, in a task instance whose timeouts fail the workflow.
unfoldable pub fails_by_timeout : Current → Bool
fails_by_timeout c =
    same_status c.status terminated_after_time_out
    && not (timeout_excused c.task_instance.timeout_behavior c.was_handled)
    && timeout_fails c.task_instance.timeout_behavior

-- The execution ended otherwise without success, and the failure is not excused.
unfoldable pub fails_otherwise : Current → Bool
fails_otherwise c =
    is_unsuccessful c.status
    && not (same_status c.status terminated_after_time_out)
    && not (failure_excused c.task_instance.failure_behavior c.was_handled)

-- Such a failure in a task instance that does not let the workflow go on after it.
unfoldable pub fails_at_once : Current → Bool
unfolding fails_otherwise
fails_at_once c = fails_otherwise c && not c.task_instance.allow_workflow_execution_after_failure

unfoldable pub fails_workflow : Current → Bool
unfolding fails_by_timeout fails_otherwise
fails_workflow c = fails_by_timeout c || fails_otherwise c

unfoldable pub is_live : Current → Bool
is_live c = is_in_progress c.status

-- The decision, by what is among the executions and not by their order.
unfoldable pub verdict : List Current → Bool → Status
unfolding fails_at_once fails_workflow is_live
verdict cs pending =
    if exists_in fails_at_once cs
    then failed
    else if pending || exists_in is_live cs
    then running
    else if exists_in fails_workflow cs
    then failed
    else succeeded

abbrev IsSettled : Status → Type 0
IsSettled s = (s ≡ succeeded) ⊎ (s ≡ failed)

-- The variables after a round that does not return.
after : Current → Loop → Loop
after c loop = record {
  updated = if fails_workflow c then failed else loop.updated;
  has_running = is_live c || loop.has_running;
}

after-IsSettled :
    (c : Current) (loop : Loop) → IsSettled loop.updated → IsSettled (after c loop).updated
unfolding after
after-IsSettled c loop h = ground arith

visit_stops :
    (c : Current) (loop : Loop) → fails_at_once c ≡ true → visit c loop ≡ return_now failed
unfolding visit fails_at_once
visit_stops c loop h = ground arith

visit_goes_on :
    (c : Current) (loop : Loop)
    → IsSettled loop.updated
    → fails_at_once c ≡ false
    → visit c loop ≡ go_on (after c loop)
unfolding visit after fails_at_once fails_workflow is_live
visit_goes_on c loop h g = ground arith

-- The loop from any settled status.
loop-verdict :
    (cs : List Current) (pending : Bool) (loop : Loop)
    → IsSettled loop.updated
    → after_loop pending (visit_all cs loop) ≡ (
        if exists_in fails_at_once cs
        then failed
        else if pending || (exists_in is_live cs || loop.has_running)
        then running
        else if exists_in fails_workflow cs
        then failed
        else loop.updated)
unfolding visit_all
loop-verdict [] pending loop h = ground arith
loop-verdict (c ∷ cs) pending loop h = elim (Bool-cases (fails_at_once c)) [
  | inl stops ↦ rw (stops) (rw (visit_stops c loop stops, and_then, after_loop))
  | inr goes ↦ rw goes (
      ap (λ r. after_loop pending (and_then r (visit_all cs))) (visit_goes_on c loop h goes)
      ∙ loop-verdict cs pending (after c loop) (after-IsSettled c loop h)
      ∙ regroup)
]
  where
    regroup :
        (if exists_in fails_at_once cs
          then failed
          else if pending || (exists_in is_live cs || (after c loop).has_running)
          then running
          else if exists_in fails_workflow cs
          then failed
          else (after c loop).updated)
        ≡ (if exists_in fails_at_once cs
            then failed
            else if pending || ((is_live c || exists_in is_live cs) || loop.has_running)
            then running
            else if fails_workflow c || exists_in fails_workflow cs
            then failed
            else loop.updated)
    regroup = unfold after in ground arith

-- For a RUNNING workflow execution, compute_updated_status returns FAILED if some latest execution
-- failed in a task instance that does not allow the workflow to continue, else RUNNING if a
-- transition is about to be activated or some task execution is in progress, else FAILED if
-- some failure or timeout fails the workflow, and else SUCCEEDED.
pub compute_updated_status-verdict :
    (cs : List Current) (pending : Bool)
    → compute_updated_status running cs pending ≡ verdict cs pending
unfolding compute_updated_status verdict
compute_updated_status-verdict cs pending =
    loop-verdict cs pending (record { updated = succeeded; has_running = false }) (inl refl)
    ∙ ground arith

-- No list of latest executions, whatever the timeout behaviors, makes compute_updated_status
-- take a RUNNING workflow execution to TERMINATED_AFTER_TIME_OUT.
pub compute_updated_status-ne-terminated :
    (cs : List Current) (pending : Bool)
    → compute_updated_status running cs pending ≢ terminated_after_time_out
unfolding verdict
compute_updated_status-ne-terminated cs pending =
    rw (compute_updated_status-verdict cs pending) (λ e. ground arith)

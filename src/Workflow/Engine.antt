-- ===== src/Workflow/Engine.antt =====
-- server/processes/models/workflow_task_instance.py and workflow_execution.py: how a workflow
-- execution moves on when a task execution finishes.
use task_manager.Prelude.{
  ℕ, zero, suc, Bool, true, false, not, ◌&&◌, Option, none, some, List, [], ◌∷◌, ◌++◌, map, ◌==◌,
  ltb, leb, if◌then◌else◌, select, length,
}
use task_manager.Status.{
  running, succeeded, failed, stopping, stopped, same_status, status_in, is_in_progress,
  is_successful,
}
use task_manager.Workflow.Types.{TaskInstance}
use task_manager.Workflow.Transition.{integer, Transition, should_activate}
use task_manager.Workflow.Store.{
  TaskRun, InstanceRun, find_task_run, find_task_instance, latest_runs, last,
}
use task_manager.Workflow.Rows.{
  Env, set_self, inbound, activated_inbound, is_triggered, under_limit,
}
use task_manager.Workflow.Saving.{save, check_if_complete, start}
use task_manager.Workflow.Action.{
  unsupported_rule, recursion_error, return, raise, Action, pure, try_except, ◌>>=◌, ◌>>◌,
}

module _ (env : Env) where
  open env use {workflow, now}

  -- A method that may come back to itself is given the call that it makes.
  module _ (finished : InstanceRun → Bool → Bool → Action (Unit {0})) where
    abbrev pub retry_run : TaskInstance → InstanceRun → Option TaskRun → Action (Unit {0})
    retry_run wti r none = pure tt
    retry_run wti r (some t) =
        if is_in_progress t.status
        then pure tt
        else if is_successful t.status
        then finished r false true
        else start env wti

    abbrev pub retry_latest : TaskInstance → Option InstanceRun → Action (Unit {0})
    retry_latest wti none s = start env wti s
    retry_latest wti (some r) s = retry_run wti r (find_task_run r.task_execution s.db.task_runs) s

    -- WorkflowTaskInstance.retry_if_unsuccessful
    unfoldable pub retry_if_unsuccessful : TaskInstance → Action (Unit {0})
    unfolding start find_task_run
    retry_if_unsuccessful wti s =
        retry_latest wti (last (latest_runs s.self.ident wti.ident s.db.instance_runs)) s

    -- What follows the decision that the task instance is triggered.
    abbrev pub run_triggered : TaskInstance → Bool → ℕ → Action Bool
    run_triggered wti retry_mode completed =
        if retry_mode
        then retry_if_unsuccessful wti >> pure true
        else if under_limit wti.max_complete_executions completed
        then start env wti >> pure true
        else pure false

    -- WorkflowTaskInstance.handle_inbound_transition_activated
    unfoldable pub handle_inbound : TaskInstance → Bool → Action Bool
    unfolding retry_if_unsuccessful is_triggered activated_inbound
    handle_inbound wti retry_mode s =
        let completed = length (latest_runs s.self.ident wti.ident s.db.instance_runs) in
        (if not wti.should_eval_transitions_after_first_execution
              && (not retry_mode && leb 1 completed)
            then pure false
            else (is_triggered wti.start_transition_condition wti
                  (activated_inbound s.self.ident wti workflow.transitions s.db)
                  (map (λ t. t.ident) (inbound wti workflow.transitions))
                >>= λ triggered.
                    if triggered then run_triggered wti retry_mode completed else pure false))
          s

    abbrev pub activate_instance : Option TaskInstance → Bool → Action (Unit {0})
    activate_instance none retry_mode = pure tt
    activate_instance (some wti) retry_mode = handle_inbound wti retry_mode >> pure tt

    -- The loop over the activated transitions. An exception does not end it: the first one is
    -- raised behind it.
    unfoldable pub activate_all : List Transition → Bool → Action (Unit {0})
    unfolding handle_inbound find_task_instance
    activate_all [] retry_mode s = (return tt, s)
    activate_all (t ∷ ts) retry_mode s =
        let (r, s') =
          activate_instance (find_task_instance t.to_workflow_task_instance workflow.task_instances)
            retry_mode s in
        let (rest, s'') = activate_all ts retry_mode s' in
        (elim r [ return u ↦ rest | raise e ↦ raise e ], s'')

  -- The exit code that a skipped execution counts with is 0, and its status SUCCEEDED.
  abbrev pub evaluate_transition : Transition → Bool → Option TaskRun → Option Bool
  evaluate_transition t true run = should_activate t succeeded (integer 0)
  evaluate_transition t false none = none
  evaluate_transition t false (some run) = should_activate t run.status run.exit_code

  abbrev pub record_evaluation : InstanceRun → Transition → Option Bool → Action Bool
  record_evaluation r t none s = (raise unsupported_rule, s)
  record_evaluation r t (some result) s = (
    return result,
    record s {
      db = record s.db {
        evaluations =
            s.db.evaluations
            ++ record {
              result = result;
              workflow_execution = s.self.ident;
              from_run = r.ident;
              transition = t.ident;
            }
              ∷ [];
      };
    },
  )

  -- The loop over the outbound transitions: an evaluation is saved for each, and the activated
  -- ones are returned.
  unfoldable pub evaluate_all : InstanceRun → Bool → List Transition → Action (List Transition)
  unfolding should_activate find_task_run
  evaluate_all r skipped [] s = (return [], s)
  evaluate_all r skipped (t ∷ ts) s =
      (record_evaluation r t
            (evaluate_transition t skipped (find_task_run r.task_execution s.db.task_runs))
          >>= λ activated.
              (evaluate_all r skipped ts >>= λ rest. pure (if activated then t ∷ rest else rest)))
        s

  abbrev pub outbound : InstanceRun → List Transition
  outbound r = select (λ t. t.from_workflow_task_instance == r.task_instance) workflow.transitions

  abbrev pub fail_execution : Action (Unit {0})
  fail_execution = do set_self (λ e. record e { status = failed; finished_at = some now }); save env

  -- The `try` block of handle_workflow_task_instance_execution_finished.
  abbrev pub finish_body :
      (List Transition → Bool → Action (Unit {0})) → InstanceRun → Bool → Bool → Action (Unit {0})
  finish_body activate r skipped retry_mode = evaluate_all r skipped (outbound r) >>= λ activated.
      (check_if_complete env (ltb 0 (length activated)) >> λ s.
      (if same_status s.self.status running then activate activated retry_mode else pure tt) s)

  -- handle_workflow_task_instance_execution_finished(wtie, skipped, retry_mode). The depth is
  -- what the interpreter's recursion limit leaves; at 0 a call raises RecursionError.
  unfoldable pub handle_finished : ℕ → InstanceRun → Bool → Bool → Action (Unit {0})
  unfolding activate_all evaluate_all check_if_complete
  handle_finished zero r skipped retry_mode s = (raise recursion_error, s)
  handle_finished (suc depth) r skipped retry_mode s =
      (if status_in s.self.status (stopping ∷ stopped ∷ [])
          then pure tt
          else try_except (finish_body (activate_all (handle_finished depth)) r skipped retry_mode)
              fail_execution)
        s

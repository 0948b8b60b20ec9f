-- ===== src/Samples/Flow.antt =====
-- The theorems on workflows at the sample workflow.
use task_manager.Prelude.{◌≡◌, ◌≢◌, inl, refl, false, some, List, [], ◌∷◌, arith}
use task_manager.Status.{running, failed, terminated_after_time_out}
use task_manager.Workflow.Types.{TimeoutBehavior}
use task_manager.Workflow.Transition.{RuleType, integer, should_activate}
use task_manager.Workflow.Transition.Rules.{should_activate-exit_code_never}
use task_manager.Workflow.Completion.{Current, compute_updated_status}
use task_manager.Workflow.Completion.Verdict.{
  compute_updated_status-verdict, compute_updated_status-ne-terminated, verdict,
}
use task_manager.Workflow.Store.{latest_runs}
use task_manager.Workflow.Action.{return}
use task_manager.Workflow.Engine.{handle_finished}
use task_manager.Workflow.Lifecycle.{manually_start, reachable_from, invalidate_reachable}
use task_manager.Workflow.Latest.{IsUnique, here, next, begin, finish, Reach-IsUnique}
use task_manager.Workflow.Invalidate.{invalidate_reachable-all_executions}
use task_manager.Workflow.Containment.{handle_finished_returns}
use task_manager.Samples.{
  instance_of, transition_with, two_steps, env, instance_run, empty_state, two_executions,
}

should_activate-exit_code_never_example :
    should_activate (transition_with RuleType.on_exit_code (some ("3" ∷ []))) failed (integer 3)
    ≡ some false
should_activate-exit_code_never_example =
    should_activate-exit_code_never (transition_with RuleType.on_exit_code (some ("3" ∷ []))) failed
      (integer 3) refl (inl (3, refl))

abbrev timed_out : List Current
timed_out =
    record {
      task_instance = instance_of 1 TimeoutBehavior.timeout_workflow_always;
      status = terminated_after_time_out;
      was_handled = false;
    }
    ∷ []

compute_updated_status-verdict_example :
    compute_updated_status running timed_out false ≡ verdict timed_out false
compute_updated_status-verdict_example = compute_updated_status-verdict timed_out false

compute_updated_status-ne-terminated_example :
    compute_updated_status running timed_out false ≢ terminated_after_time_out
compute_updated_status-ne-terminated_example = compute_updated_status-ne-terminated timed_out false

Reach-IsUnique_example :
    IsUnique
      (handle_finished env 3
        (instance_run 21 7 1 20)
        false
        false
        (manually_start env empty_state).1).1.db.instance_runs
Reach-IsUnique_example =
    Reach-IsUnique (λ i. env) {s = empty_state} (λ i j db h. h)
      (next (next here (begin 0)) (finish 0 3 (instance_run 21 7 1 20) false false))
      (λ e w. omega arith)

invalidate_reachable-all_executions_example :
    latest_runs 8 1 (invalidate_reachable env (1 ∷ []) two_executions).1.db.instance_runs ≡ []
unfolding reachable_from
invalidate_reachable-all_executions_example =
    invalidate_reachable-all_executions env (1 ∷ []) (1 ∷ 2 ∷ []) two_steps two_executions 8 1 refl
      refl refl

handle_finished_returns_example :
    (handle_finished env 1 (instance_run 40 7 1 30) false false two_executions).0 ≡ return tt
handle_finished_returns_example =
    handle_finished_returns env 0 (instance_run 40 7 1 30) false false two_executions

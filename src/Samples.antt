-- ===== src/Samples.antt =====
-- Values on which the theorems are tried: a workflow of two tasks, one after the other.
mod Flow
mod Checks
mod Reports
mod Quotas
mod Postponements
mod Timetables
mod Permits
mod Launches
mod Alarms
mod Calendars
use Prim.Native.String.{String}
use task_manager.Prelude.{
  ℕ, Bool, true, false, Option, none, some, List, [], ◌∷◌, ◌==◌, map, select, exists_in,
  if◌then◌else◌, ◌+◌,
}
use task_manager.Status.{Status, running, failed, manually_started}
use task_manager.Workflow.Types.{
  TaskInstance, StartCondition, FailureBehavior, TimeoutBehavior, Ratio,
}
use task_manager.Workflow.Transition.{RuleType, integer, none_value, Transition}
use task_manager.Workflow.Store.{TaskRun, InstanceRun, Workflow, RunReason, WorkflowExecution, Db}
use task_manager.Workflow.Action.{State}
use task_manager.Workflow.Rows.{Env}

abbrev pub instance_of : ℕ → TimeoutBehavior → TaskInstance
instance_of i timeout = record {
  ident = i;
  task = i + 10;
  start_transition_condition = StartCondition.any;
  max_complete_executions = some 1;
  should_eval_transitions_after_first_execution = false;
  condition_count_threshold = none;
  condition_ratio_threshold = none;
  failure_behavior = FailureBehavior.fail_workflow_if_unhandled;
  allow_workflow_execution_after_failure = false;
  timeout_behavior = timeout;
  allow_workflow_execution_after_timeout = false;
  use_task_notification_profiles = true;
}

abbrev pub transition_with : RuleType → Option (List String) → Transition
transition_with rule codes = record {
  ident = 5;
  from_workflow_task_instance = 1;
  to_workflow_task_instance = 2;
  rule_type = rule;
  exit_codes = codes;
}

abbrev pub two_steps : Workflow
two_steps = record {
  task_instances =
      instance_of 1 TimeoutBehavior.timeout_workflow_always
      ∷ instance_of 2 TimeoutBehavior.ignore
      ∷ [];
  transitions = transition_with RuleType.always none ∷ [];
  default_max_retries = 1;
  max_age_seconds = some 60;
}

-- A search of depth one, which is enough for this workflow.
abbrev pub successors : List ℕ → List (ℕ × ℕ) → ℕ → Option (List ℕ)
successors nodes edges i =
    if exists_in (λ n. n == i) nodes
    then some (i ∷ map (λ (e : ℕ × ℕ). e.1) (select (λ (e : ℕ × ℕ). e.0 == i) edges))
    else none

abbrev pub env : Env
env = record {
  workflow = two_steps;
  now = 100000000;
  user = some 3;
  launch = λ i db. (true, db);
  saves_run = λ i. true;
  dfs_preorder_nodes = successors;
}

abbrev pub execution_with : ℕ → Status → WorkflowExecution
execution_with i s = record {
  ident = i;
  created_at = 0;
  snapshot = some two_steps;
  status = s;
  run_reason = RunReason.explicit_start;
  stop_reason = none;
  started_at = some 1000000;
  started_by = none;
  finished_at = none;
  marked_done_at = none;
  failed_attempts = 0;
  timed_out_attempts = 0;
}

abbrev pub task_run : ℕ → Status → TaskRun
task_run i s = record {
  ident = i;
  task = 11;
  status = s;
  exit_code = integer 0;
  stop_reason = none;
  kill_started_at = none;
  killed_by = none;
}

-- The latest execution of a task instance in a workflow execution.
abbrev pub instance_run : ℕ → ℕ → ℕ → ℕ → InstanceRun
instance_run i execution wti t = record {
  ident = i;
  workflow_execution = execution;
  task_instance = wti;
  task_execution = t;
  is_latest = true;
}

abbrev pub empty_state : State
empty_state = record {
  self = execution_with 7 manually_started;
  loaded = some (execution_with 7 manually_started);
  db = record {
    task_runs = [];
    instance_runs = [];
    evaluations = [];
    workflow_executions = [];
    next_ident = 20;
  };
  notices = [];
}

-- Two executions of the workflow: 7 failed in its first task, and 8 runs it.
abbrev pub two_executions : State
two_executions = record {
  self = execution_with 7 running;
  loaded = some (execution_with 7 running);
  db = record {
    task_runs = task_run 30 failed ∷ task_run 31 running ∷ [];
    instance_runs = instance_run 40 7 1 30 ∷ instance_run 41 8 1 31 ∷ [];
    evaluations = [];
    workflow_executions = execution_with 7 running ∷ execution_with 8 running ∷ [];
    next_ident = 50;
  };
  notices = [];
}

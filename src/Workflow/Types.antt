-- ===== src/Workflow/Types.antt =====
-- server/processes/models/workflow_task_instance.py: a task's place in a workflow, and what the
-- workflow does when the task fails or times out.
use task_manager.Prelude.{ℕ, Bool, Option}

-- START_TRANSITION_CONDITION_*
pub data StartCondition : Type 0 where
  all any count_at_least ratio_at_least : StartCondition

-- FAILURE_BEHAVIOR_*
pub data FailureBehavior : Type 0 where
  fail_workflow_always fail_workflow_if_unhandled ignore : FailureBehavior

-- TIMEOUT_BEHAVIOR_*
pub data TimeoutBehavior : Type 0 where
  fail_workflow_always timeout_workflow_always fail_workflow_if_unhandled : TimeoutBehavior
  timeout_workflow_if_unhandled ignore : TimeoutBehavior

-- A FloatField's value, as the exact quotient of two natural numbers.
pub record Ratio : Type 0 where
  pub numerator : ℕ
  pub denominator : ℕ

-- The fields of a WorkflowTaskInstance that its methods and its workflow's executions read.
-- A negative `max_complete_executions` or threshold acts as 0 does.
pub record TaskInstance : Type 0 where
  pub ident : ℕ
  pub task : ℕ
  pub start_transition_condition : StartCondition
  pub max_complete_executions : Option ℕ
  pub should_eval_transitions_after_first_execution : Bool
  pub condition_count_threshold : Option ℕ
  pub condition_ratio_threshold : Option Ratio
  pub failure_behavior : FailureBehavior
  pub allow_workflow_execution_after_failure : Bool
  pub timeout_behavior : TimeoutBehavior
  pub allow_workflow_execution_after_timeout : Bool
  pub use_task_notification_profiles : Bool

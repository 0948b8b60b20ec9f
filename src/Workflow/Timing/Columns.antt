-- ===== src/Workflow/Timing/Columns.antt =====
-- server/processes/models/workflow.py: the columns and the requests that the schedule of a workflow
-- needs, and the run environment in which its rule stands.
use task_manager.Prelude.{
  ℕ, Bool, true, false, not, ◌&&◌, Option, none, some, List, [], ◌∷◌, ◌==◌, if◌then◌else◌, is_some,
  leb, Time,
}

-- A schedule that is not empty, by what it starts with.
pub data Schedule : Type 0 where
  cron rate other : ℕ → Schedule

abbrev pub same_schedule : Schedule → Schedule → Bool
same_schedule (cron m) (cron n) = m == n
same_schedule (rate m) (rate n) = m == n
same_schedule (other m) (other n) = m == n
same_schedule _ _ = false

-- A RunEnvironment: can_schedule_workflow(), and whether its AWS settings can be parsed and have
-- all that the rule needs.
pub record RunEnvironment : Type 0 where
  pub ident : ℕ
  pub can_schedule_workflow : Bool
  pub has_aws_settings : Bool
  pub has_starter_settings : Bool

-- The columns of a Workflow, with the run environments of its Tasks; an empty string is none.
pub record Row : Type 0 where
  pub uuid : ℕ
  pub is_saved : Bool
  pub enabled : Bool
  pub schedule : Option Schedule
  pub schedule_updated_at : Option Time
  pub run_environment : Option RunEnvironment
  pub scheduling_run_environment : Option RunEnvironment
  pub task_run_environments : List (Option RunEnvironment)
  pub aws_scheduled_execution_rule_name : Option ℕ
  pub aws_scheduled_event_rule_arn : Option ℕ
  pub aws_event_target_rule_name : Option ℕ
  pub aws_event_target_id : Option ℕ

pub data Request : Type 0 where
  put_rule : Schedule → Bool → Request
  enable_rule disable_rule put_targets remove_targets delete_rule : Request

pub data Answer : Type 0 where
  success resource_not_found failure : Answer

-- A request to the service in a run environment, and its answer.
pub record Call : Type 0 where
  pub environment : ℕ
  pub request : Request
  pub answer : Answer

-- What the service answers, and the rule's ARN.
pub record Events : Type 0 where
  pub answer : ℕ → Request → Answer
  pub rule_arn : ℕ

-- The calls so far, and the Workflow, or none after an exception.
pub record Step : Type 0 where
  pub calls : List Call
  pub result : Option Row

abbrev pub can_schedule : Option RunEnvironment → Bool
can_schedule none = false
can_schedule (some e) = e.can_schedule_workflow

-- The first run environment of the Tasks that can schedule workflows.
unfoldable pub first_able : List (Option RunEnvironment) → Option RunEnvironment
first_able [] = none
first_able (o ∷ os) = let rest = first_able os in if can_schedule o then o else rest

-- run_environment_for_scheduling
unfoldable pub run_environment_for_scheduling : Bool → Row → Option RunEnvironment
unfolding first_able
run_environment_for_scheduling fallback_to_tasks w =
    if can_schedule w.scheduling_run_environment
    then w.scheduling_run_environment
    else if can_schedule w.run_environment
    then w.run_environment
    else if fallback_to_tasks && w.is_saved
    then first_able w.task_run_environments
    else none

abbrev pub is_success : Answer → Bool
is_success success = true
is_success resource_not_found = false
is_success failure = false

-- It starts with `cron` or `rate`.
abbrev pub is_valid : Schedule → Bool
is_valid (cron n) = true
is_valid (rate n) = true
is_valid (other n) = false

abbrev pub switch : Bool → Request
switch enabled = if enabled then enable_rule else disable_rule

abbrev pub same_environment : Option RunEnvironment → Option RunEnvironment → Bool
same_environment none none = true
same_environment none (some y) = false
same_environment (some x) none = false
same_environment (some x) (some y) = x.ident == y.ident

abbrev pub same_optional : Option Schedule → Option Schedule → Bool
same_optional none none = true
same_optional none (some t) = false
same_optional (some s) none = false
same_optional (some s) (some t) = same_schedule s t

abbrev pub same_flag : Bool → Bool → Bool
same_flag true b = b
same_flag false b = not b

abbrev pub touched : Time → Option Row → Option Row
touched now none = none
touched now (some w) = some (record w { schedule_updated_at = some now })

abbrev pub touch : Time → Step → Step
touch now s = record { calls = s.calls; result = touched now s.result }

abbrev pub effective_of : Row → Option RunEnvironment
effective_of w = if is_some w.schedule then run_environment_for_scheduling true w else none

-- `existing_count >= max_workflows`
abbrev pub exceeds : Option ℕ → ℕ → Bool
exceeds none n = false
exceeds (some limit) n = leb limit n

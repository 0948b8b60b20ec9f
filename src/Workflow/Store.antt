-- ===== src/Workflow/Store.antt =====
-- The tables that a workflow execution reads and writes: server/processes/models/task_execution.py,
-- workflow_task_instance_execution.py, workflow_transition_evaluation.py and workflow_execution.py.
-- A queryset is a filtered list, in the order of creation; an identifier is a UUID.
use task_manager.Prelude.{
  ℕ, Bool, false, ◌&&◌, Option, none, some, List, [], ◌∷◌, ◌==◌, if◌then◌else◌, select, exists_in,
  Time,
}
use task_manager.Status.{Status, StopReason, is_successful}
use task_manager.Workflow.Types.{TaskInstance}
use task_manager.Workflow.Transition.{PythonValue, Transition}
use task_manager.Workflow.Completion.{Current}

-- The fields of a TaskExecution that a workflow reads or writes.
pub record TaskRun : Type 0 where
  pub ident : ℕ
  pub task : ℕ
  pub status : Status
  pub exit_code : PythonValue
  pub stop_reason : Option StopReason
  pub kill_started_at : Option Time
  pub killed_by : Option ℕ

-- WorkflowTaskInstanceExecution
pub record InstanceRun : Type 0 where
  pub ident : ℕ
  pub workflow_execution : ℕ
  pub task_instance : ℕ
  pub task_execution : ℕ
  pub is_latest : Bool

-- WorkflowTransitionEvaluation
pub record Evaluation : Type 0 where
  pub result : Bool
  pub workflow_execution : ℕ
  pub from_run : ℕ
  pub transition : ℕ

-- Workflow: its task instances, and its transitions.
pub record Workflow : Type 0 where
  pub task_instances : List TaskInstance
  pub transitions : List Transition
  pub default_max_retries : ℕ
  pub max_age_seconds : Option ℕ

-- WorkflowExecution.RunReason
pub data RunReason : Type 0 where
  explicit_start scheduled_start explicit_retry : RunReason

-- WorkflowExecution.StopReason
pub data WorkflowStopReason : Type 0 where
  manual max_execution_time_exceeded : WorkflowStopReason

-- WorkflowExecution, with the fields of Execution that its methods read or write.
pub record WorkflowExecution : Type 0 where
  pub ident : ℕ
  pub created_at : Time
  pub snapshot : Option Workflow
  pub status : Status
  pub run_reason : RunReason
  pub stop_reason : Option WorkflowStopReason
  pub started_at : Option Time
  pub started_by : Option ℕ
  pub finished_at : Option Time
  pub marked_done_at : Option Time
  pub failed_attempts : ℕ
  pub timed_out_attempts : ℕ

pub record Db : Type 0 where
  pub task_runs : List TaskRun
  pub instance_runs : List InstanceRun
  pub evaluations : List Evaluation
  pub workflow_executions : List WorkflowExecution
  pub next_ident : ℕ

-- `objects.get(uuid=…)`
unfoldable pub find_task_run : ℕ → List TaskRun → Option TaskRun
find_task_run i [] = none
find_task_run i (t ∷ ts) = if t.ident == i then some t else find_task_run i ts

unfoldable pub find_task_instance : ℕ → List TaskInstance → Option TaskInstance
find_task_instance i [] = none
find_task_instance i (t ∷ ts) = if t.ident == i then some t else find_task_instance i ts

-- The row of a saved workflow execution is overwritten, or added.
unfoldable pub put_workflow_execution :
    WorkflowExecution → List WorkflowExecution → List WorkflowExecution
put_workflow_execution e [] = e ∷ []
put_workflow_execution e (f ∷ fs) =
    if f.ident == e.ident then e ∷ fs else f ∷ put_workflow_execution e fs

-- WorkflowTaskInstance.find_latest_executions
abbrev pub is_latest_of : ℕ → ℕ → InstanceRun → Bool
is_latest_of execution task_instance r =
    r.is_latest && (r.workflow_execution == execution && r.task_instance == task_instance)

abbrev pub latest_runs : ℕ → ℕ → List InstanceRun → List InstanceRun
latest_runs execution task_instance runs = select (is_latest_of execution task_instance) runs

-- `.last()`
abbrev pub last {ℓ} : {A : Type ℓ} → List A → Option A
last [] = none
last (x ∷ []) = some x
last (x ∷ y ∷ ys) = last (y ∷ ys)

-- `.filter(…).update(is_latest=False)`
abbrev pub demote_run : (InstanceRun → Bool) → InstanceRun → InstanceRun
demote_run p r = if p r then record r { is_latest = false } else r

unfoldable pub demote : (InstanceRun → Bool) → List InstanceRun → List InstanceRun
demote p [] = []
demote p (r ∷ rs) = demote_run p r ∷ demote p rs

-- The transitions evaluated as activated from an execution: `was_handled`.
abbrev pub was_handled : ℕ → List Evaluation → Bool
was_handled run evaluations = exists_in (λ v. v.from_run == run && v.result) evaluations

abbrev pub current_of : Option TaskInstance → Option TaskRun → Bool → List Current → List Current
current_of (some wti) (some t) handled rest =
    if is_successful t.status
    then rest
    else record { task_instance = wti; status = t.status; was_handled = handled } ∷ rest
current_of _ _ handled rest = rest

-- The latest executions of a workflow execution whose task executions did not succeed, joined
-- with their task instances and task executions.
unfoldable pub currents :
    Workflow → ℕ → List TaskRun → List Evaluation → List InstanceRun → List Current
unfolding find_task_run find_task_instance
currents w execution tasks evaluations [] = []
currents w execution tasks evaluations (r ∷ rs) =
    let rest = currents w execution tasks evaluations rs in
    if r.is_latest && r.workflow_execution == execution
    then current_of (find_task_instance r.task_instance w.task_instances)
        (find_task_run r.task_execution tasks) (was_handled r.ident evaluations) rest
    else rest

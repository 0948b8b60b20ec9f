-- ===== src/Workflow/Rows.antt =====
-- server/processes/models/workflow_task_instance.py and workflow_execution.py: the queries of the
-- engine, the rows that it writes, and what it is given.
use task_manager.Prelude.{
  ℕ, ◌+◌, ◌*◌, Bool, true, false, ◌&&◌, Option, none, some, List, [], ◌∷◌, ◌++◌, map, ◌==◌, ltb,
  leb, if◌then◌else◌, select, exists_in, for_all, length, Time,
}
use task_manager.Status.{StopReason, stopping, manually_started, is_in_progress}
use task_manager.Workflow.Types.{
  TaskInstance, StartCondition, all, any, count_at_least, ratio_at_least, Ratio,
}
use task_manager.Workflow.Transition.{none_value, Transition}
use task_manager.Workflow.Store.{TaskRun, InstanceRun, Workflow, WorkflowExecution, Db, demote}
use task_manager.Workflow.Action.{zero_division, Action, pure, throw, modify}

-- What the engine is given: the workflow, the instant, the user of the request, if there is one,
-- TaskExecution.manually_start, which answers whether it returned and may change the database,
-- whether the save of a task execution that is stopped returns without an exception, and
-- networkx's dfs_preorder_nodes over nodes and edges, which raises KeyError for an unknown node.
pub record Env : Type 0 where
  pub workflow : Workflow
  pub now : Time
  pub user : Option ℕ
  pub launch : ℕ → Db → Bool × Db
  pub saves_run : ℕ → Bool
  pub dfs_preorder_nodes : List ℕ → List (ℕ × ℕ) → ℕ → Option (List ℕ)

abbrev pub set_db : (Db → Db) → Action (Unit {0})
set_db f = modify (λ s. record s { db = f s.db })

abbrev pub set_self : (WorkflowExecution → WorkflowExecution) → Action (Unit {0})
set_self f = modify (λ s. record s { self = f s.self })

-- The body of the loop of stop_running_task_executions.
abbrev pub stop_run : StopReason → Time → Option ℕ → TaskRun → TaskRun
stop_run reason now user t = record t {
  status = stopping;
  stop_reason = some reason;
  kill_started_at = some now;
  killed_by = user;
}

-- The task execution has a latest instance execution in this workflow execution.
abbrev pub belongs_to : ℕ → List InstanceRun → TaskRun → Bool
belongs_to execution runs t =
    exists_in
      (λ r. r.is_latest && (r.workflow_execution == execution && r.task_execution == t.ident)) runs

-- A task execution whose save raises an exception keeps its row, as the exception is only logged.
-- What the signal handlers of a save do to other parts is no column of these tables.
unfoldable pub stop_runs :
    (ℕ → Bool) → StopReason → Time → Option ℕ → ℕ → List InstanceRun → List TaskRun → List TaskRun
stop_runs saves reason now user execution runs [] = []
stop_runs saves reason now user execution runs (t ∷ ts) =
    (if belongs_to execution runs t && is_in_progress t.status && saves t.ident
      then stop_run reason now user t
      else t)
    ∷ stop_runs saves reason now user execution runs ts

-- The new rows of WorkflowTaskInstance.start.
abbrev pub new_task_run : ℕ → TaskInstance → TaskRun
new_task_run i wti = record {
  ident = i;
  task = wti.task;
  status = manually_started;
  exit_code = none_value;
  stop_reason = none;
  kill_started_at = none;
  killed_by = none;
}

abbrev pub new_instance_run : ℕ → ℕ → TaskInstance → ℕ → InstanceRun
new_instance_run i execution wti t = record {
  ident = i;
  workflow_execution = execution;
  task_instance = wti.ident;
  task_execution = t;
  is_latest = true;
}

-- The statements of WorkflowTaskInstance.start before the task execution is launched.
unfoldable pub start_rows : ℕ → TaskInstance → Db → Db
unfolding demote
start_rows execution wti db =
    let older =
      demote (λ r. r.workflow_execution == execution && r.task_instance == wti.ident)
        db.instance_runs in
    record db {
      task_runs = db.task_runs ++ new_task_run db.next_ident wti ∷ [];
      instance_runs =
          older ++ new_instance_run (db.next_ident + 1) execution wti db.next_ident ∷ [];
      next_ident = db.next_ident + 2;
    }

-- The transitions that lead to a task instance.
abbrev pub inbound : TaskInstance → List Transition → List Transition
inbound wti transitions = select (λ t. t.to_workflow_task_instance == wti.ident) transitions

abbrev pub run_is_latest : ℕ → List InstanceRun → Bool
run_is_latest i runs = exists_in (λ r. r.ident == i && r.is_latest) runs

-- find_activated_inbound_transition_evaluations, as the identifiers of the transitions.
unfoldable pub activated_inbound : ℕ → TaskInstance → List Transition → Db → List ℕ
activated_inbound execution wti transitions db =
    map (λ v. v.transition)
      (select
        (λ v.
          (v.workflow_execution == execution && v.result)
          && (exists_in (λ (t : Transition). t.ident == v.transition) (inbound wti transitions)
              && run_is_latest v.from_run db.instance_runs))
        db.evaluations)

abbrev pub same_set : List ℕ → List ℕ → Bool
same_set xs ys =
    for_all (λ x. exists_in (λ y. x == y) ys) xs && for_all (λ y. exists_in (λ x. x == y) xs) ys

abbrev pub reaches_count : ℕ → Option ℕ → Bool
reaches_count n none = false
reaches_count n (some threshold) = leb threshold n

-- `n / total >= threshold`; a division by 0 raises.
abbrev pub reaches_ratio : ℕ → ℕ → Option Ratio → Action Bool
reaches_ratio n total none = pure false
reaches_ratio n total (some threshold) =
    if total == 0
    then throw zero_division
    else pure (leb (threshold.numerator * total) (n * threshold.denominator))

-- The start condition, by the transitions activated and all the inbound ones.
unfoldable pub is_triggered : StartCondition → TaskInstance → List ℕ → List ℕ → Action Bool
is_triggered any wti activated inbounds = pure true
is_triggered count_at_least wti activated inbounds =
    pure (reaches_count (length activated) wti.condition_count_threshold)
is_triggered all wti activated inbounds = pure (same_set activated inbounds)
is_triggered ratio_at_least wti activated inbounds =
    reaches_ratio (length activated) (length inbounds) wti.condition_ratio_threshold

abbrev pub under_limit : Option ℕ → ℕ → Bool
under_limit none count = true
under_limit (some limit) count = ltb count limit

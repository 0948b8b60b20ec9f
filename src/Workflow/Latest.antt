-- ===== src/Workflow/Latest.antt =====
-- At most one execution of a task instance in a workflow execution is the latest one.
use task_manager.Prelude.{
  ℕ, ◌+◌, ◌≤◌, ◌≡◌, refl, ◌&&◌, Bool, List, [], ◌∷◌, ◌++◌, ◌==◌, arith, length,
}
use task_manager.Workflow.Types.{TaskInstance}
use task_manager.Workflow.Store.{TaskRun, InstanceRun, WorkflowExecution, Db, latest_runs, demote}
use task_manager.Workflow.Action.{State}
use task_manager.Workflow.Rows.{Env, start_rows, new_instance_run}
use task_manager.Workflow.Keeping.{Stable, handle_finished-Keeps}
use task_manager.Workflow.Engine.{handle_finished}
use task_manager.Workflow.Lifecycle.{
  manually_start, retry, start_task_instance_executions, check_workflow_execution,
}
use task_manager.Workflow.Lifecycle.Keeping.{
  manually_start-Keeps, retry-Keeps, start_task_instance_executions-Keeps,
  check_workflow_execution-Keeps,
}

-- For each workflow execution and each task instance, one latest execution at most.
abbrev pub IsUnique : List InstanceRun → Type 0
IsUnique runs = (execution wti : ℕ) → length (latest_runs execution wti runs) ≤ 1

module _ (execution wti : ℕ) where
  length-latest-append :
      (xs ys : List InstanceRun)
      → length (latest_runs execution wti (xs ++ ys))
        ≡ length (latest_runs execution wti xs) + length (latest_runs execution wti ys)
  length-latest-append [] ys = omega arith
  length-latest-append (x ∷ xs) ys = ground (arith, length-latest-append xs ys)

  length-latest-demote :
      (p : InstanceRun → Bool) (runs : List InstanceRun)
      → length (latest_runs execution wti (demote p runs)) ≤ length (latest_runs execution wti runs)
  unfolding demote
  length-latest-demote p [] = omega arith
  length-latest-demote p (r ∷ rs) = ground (arith, length-latest-demote p rs)

  length-latest-demote_self :
      (runs : List InstanceRun)
      → length (
          latest_runs execution wti
            (demote (λ r. r.workflow_execution == execution && r.task_instance == wti) runs))
        ≡ 0
  unfolding demote
  length-latest-demote_self [] = refl
  length-latest-demote_self (r ∷ rs) = ground (arith, length-latest-demote_self rs)

start_rows-IsUnique :
    (execution : ℕ) (wti : TaskInstance) (db : Db)
    → IsUnique db.instance_runs
    → IsUnique (start_rows execution wti db).instance_runs
unfolding start_rows
start_rows-IsUnique execution wti db h e w = ground (
  arith,
  h e w,
  length-latest-append e w
      (demote (λ r. r.workflow_execution == execution && r.task_instance == wti.ident)
        db.instance_runs)
      (new_instance_run (db.next_ident + 1) execution wti db.next_ident ∷ []),
  length-latest-demote e w (λ r. r.workflow_execution == execution && r.task_instance == wti.ident)
      db.instance_runs,
  length-latest-demote_self execution wti.ident db.instance_runs,
)

demote-IsUnique :
    (p : InstanceRun → Bool) (runs : List InstanceRun) → IsUnique runs → IsUnique (demote p runs)
demote-IsUnique p runs h e w = omega (arith, h e w, length-latest-demote e w p runs)

-- TaskExecution.manually_start keeps the uniqueness.
abbrev pub LaunchesUnique : Env → Type 0
LaunchesUnique env =
    (i : ℕ) (db : Db) → IsUnique db.instance_runs → IsUnique (env.launch i db).1.instance_runs

Stable-IsUnique : (env : Env) → LaunchesUnique env → Stable env IsUnique
Stable-IsUnique env h = record {
  started = start_rows-IsUnique;
  demoted = demote-IsUnique;
  launched = h;
}

-- What happens to the tables while the program runs: in the i-th environment, a method of a
-- workflow execution is called, another one is loaded, or task executions are updated.
pub data Step (envs : ℕ → Env) (s : State) : State → Type 0 where
  finish :
      (i depth : ℕ) (r : InstanceRun) (skipped retry_mode : Bool)
      → Step envs s (handle_finished (envs i) depth r skipped retry_mode s).1
  begin : (i : ℕ) → Step envs s (manually_start (envs i) s).1
  again : (i depth : ℕ) → Step envs s (retry (envs i) depth s).1
  restart :
      (i : ℕ) (uuids : List ℕ) → Step envs s (start_task_instance_executions (envs i) uuids s).1
  check : (i depth : ℕ) → Step envs s (check_workflow_execution (envs i) depth s).1
  load : (e : WorkflowExecution) → Step envs s (record s { self = e })
  report :
      (tasks : List TaskRun) → Step envs s (record s { db = record s.db { task_runs = tasks } })

pub data Reach (envs : ℕ → Env) (s : State) : State → Type 0 where
  here : Reach envs s s
  next : {t u : State} → Reach envs s t → Step envs t u → Reach envs s u

module _ (envs : ℕ → Env) (launches : (i : ℕ) → LaunchesUnique (envs i)) where
  step-IsUnique :
      {s t : State} → Step envs s t → IsUnique s.db.instance_runs → IsUnique t.db.instance_runs
  step-IsUnique {s = s} (finish i depth r skipped retry_mode) h =
      handle_finished-Keeps (envs i) IsUnique (Stable-IsUnique (envs i) (launches i)) depth r
        skipped retry_mode s h
  step-IsUnique {s = s} (begin i) h =
      manually_start-Keeps (envs i) IsUnique (Stable-IsUnique (envs i) (launches i)) s h
  step-IsUnique {s = s} (again i depth) h =
      retry-Keeps (envs i) IsUnique (Stable-IsUnique (envs i) (launches i)) depth s h
  step-IsUnique {s = s} (restart i uuids) h =
      start_task_instance_executions-Keeps (envs i) IsUnique (Stable-IsUnique (envs i) (launches i))
        uuids s h
  step-IsUnique {s = s} (check i depth) h =
      check_workflow_execution-Keeps (envs i) IsUnique (Stable-IsUnique (envs i) (launches i)) depth
        s h
  step-IsUnique (load e) h = h
  step-IsUnique (report tasks) h = h

-- From a state in which each task instance of each workflow execution has at most one latest
-- execution, every sequence of starts, finished task executions, retries, restarts, timeout checks,
-- loads of other workflow executions and updates of task executions leads to such a state, if
-- TaskExecution.manually_start keeps this.
pub Reach-IsUnique :
    (envs : ℕ → Env) {s t : State}
    → ((i : ℕ) → LaunchesUnique (envs i))
    → Reach envs s t
    → IsUnique s.db.instance_runs
    → IsUnique t.db.instance_runs
Reach-IsUnique envs launches here h = h
Reach-IsUnique envs launches (next r st) h =
    step-IsUnique envs launches st (Reach-IsUnique envs launches r h)

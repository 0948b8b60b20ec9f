-- ===== src/Workflow/Lifecycle.antt =====
-- server/processes/models/workflow_execution.py: a workflow execution is started, retried, run
-- again from some task instances, and timed out; services/workflow_execution_checker.py.
pub mod Keeping
use task_manager.Prelude.{
  ℕ, ◌+◌, ◌-◌, Bool, true, false, not, ◌&&◌, Option, none, some, List, [], ◌∷◌, ◌++◌, map, ◌==◌,
  ltb, if◌then◌else◌, select, exists_in, length, or_else, is_some, seconds,
}
use task_manager.Status.{
  running, failed, terminated_after_time_out, manually_started, same_status, is_in_progress,
  is_successful, workflow_execution_retried, workflow_execution_timed_out,
}
use task_manager.Workflow.Types.{TaskInstance}
use task_manager.Workflow.Transition.{Transition}
use task_manager.Workflow.Store.{
  TaskRun, Workflow, WorkflowExecution, explicit_start, explicit_retry, max_execution_time_exceeded,
  find_task_run, demote, Db,
}
use task_manager.Workflow.Rows.{Env, set_db, set_self}
use task_manager.Workflow.Saving.{save, check_if_complete, start, stop_running}
use task_manager.Workflow.Engine.{retry_if_unsuccessful, handle_finished}
use task_manager.Workflow.Action.{
  resolve_events, unprocessable, key_error, attribute_error, return, Action, pure, throw,
  try_except, modify, ◌>>=◌, ◌>>◌, for_each,
}

abbrev pub is_target : List Transition → TaskInstance → Bool
is_target transitions wti = exists_in (λ t. t.to_workflow_task_instance == wti.ident) transitions

-- Workflow.find_start_task_instances
unfoldable pub find_start_task_instances : Workflow → List TaskInstance
find_start_task_instances w = select (λ wti. not (is_target w.transitions wti)) w.task_instances

-- The nodes and the edges of make_multidigraph_and_lookup_tables.
abbrev pub nodes : Workflow → List ℕ
nodes w = map (λ wti. wti.ident) w.task_instances

abbrev pub edges : Workflow → List (ℕ × ℕ)
edges w = map (λ t. (t.from_workflow_task_instance, t.to_workflow_task_instance)) w.transitions

abbrev pub member : List ℕ → ℕ → Bool
member xs x = exists_in (λ y. y == x) xs

abbrev pub run_unsuccessful : Option TaskRun → Bool
run_unsuccessful none = true
run_unsuccessful (some t) = not (is_successful t.status)

-- The task instances whose latest execution did not succeed.
unfoldable pub unsuccessful_instances : ℕ → Db → List ℕ
unfolding find_task_run
unsuccessful_instances execution db =
    map (λ r. r.task_instance)
      (select
        (λ r.
          (r.workflow_execution == execution && r.is_latest)
          && run_unsuccessful (find_task_run r.task_execution db.task_runs))
        db.instance_runs)

abbrev pub notify_resolve : Action (Unit {0})
notify_resolve = modify (λ s. record s { notices = s.notices ++ resolve_events s.self.ident ∷ [] })

module _ (env : Env) where
  open env use {workflow, now, user, dfs_preorder_nodes}

  abbrev pub union_found : Option (List ℕ) → Option (List ℕ) → Option (List ℕ)
  union_found none rest = none
  union_found (some xs) none = none
  union_found (some xs) (some ys) = some (xs ++ ys)

  -- The nodes reachable from any of the given ones; `none` is a KeyError.
  unfoldable pub reachable_from : Workflow → List ℕ → Option (List ℕ)
  reachable_from w [] = some []
  reachable_from w (x ∷ xs) =
      union_found (dfs_preorder_nodes (nodes w) (edges w) x) (reachable_from w xs)

  unfoldable pub snapshot_or_new : Option Workflow → Action Workflow
  snapshot_or_new (some w) s = (return w, s)
  snapshot_or_new none s =
      (set_self (λ e. record e { snapshot = some workflow }) >> (save env >> pure workflow)) s

  -- A workflow execution without a snapshot is given one, and saved.
  abbrev pub ensure_snapshot : Action Workflow
  ensure_snapshot s = snapshot_or_new s.self.snapshot s

  abbrev pub demote_found : Option (List ℕ) → Action (Unit {0})
  demote_found none = throw key_error
  demote_found (some found) = set_db (λ db. record db {
    instance_runs = demote (λ r. member found r.task_instance) db.instance_runs;
  })

  -- invalidate_reachable_task_instance_executions
  unfoldable pub invalidate_reachable : List ℕ → Action (Unit {0})
  unfolding reachable_from snapshot_or_new demote
  invalidate_reachable uuids = do w ← ensure_snapshot; demote_found (reachable_from w uuids)

  abbrev pub mark_failed : Action (Unit {0})
  mark_failed = set_self (λ e. record e { status = failed; finished_at = some now })

  -- manually_start
  unfoldable pub manually_start : Action (Unit {0})
  unfolding save start check_if_complete find_start_task_instances
  manually_start s =
      (if not (same_status s.self.status manually_started)
          then throw unprocessable
          else try_except
              (do
                set_self (λ e. record e {
                  snapshot = some workflow;
                  status = running;
                  run_reason = explicit_start;
                  started_at = some now;
                })
                (if is_some user then pure tt else throw attribute_error)
                set_self (λ e. record e { started_by = user })
                save env
                for_each (start env) (find_start_task_instances workflow)
                check_if_complete env false
                pure tt)
              (mark_failed >> save env))
        s

  -- retry; `depth` is what the recursion limit leaves
  unfoldable pub retry : ℕ → Action (Unit {0})
  unfolding stop_running invalidate_reachable unsuccessful_instances handle_finished
      retry_if_unsuccessful check_if_complete save find_start_task_instances
  retry depth = do
    notify_resolve
    try_except
        (do
          stop_running env workflow_execution_retried
          (λ s. invalidate_reachable (unsuccessful_instances s.self.ident s.db) s)
          set_self (λ e. record e {
            status = running;
            run_reason = explicit_retry;
            stop_reason = none;
            started_at = some now;
            finished_at = none;
            started_by = user;
          })
          for_each (retry_if_unsuccessful env (handle_finished env depth))
              (find_start_task_instances workflow))
        mark_failed
    check_if_complete env false
    save env

  abbrev pub find_row : WorkflowExecution → List WorkflowExecution → WorkflowExecution
  find_row e [] = e
  find_row e (f ∷ fs) = if f.ident == e.ident then f else find_row e fs

  -- start_task_instance_executions
  unfoldable pub start_task_instance_executions : List ℕ → Action (Unit {0})
  unfolding save invalidate_reachable start check_if_complete
  start_task_instance_executions uuids s =
      let wtis = select (λ wti. member uuids wti.ident) workflow.task_instances in
      (if ltb (length wtis) (length uuids) then throw unprocessable else (do
        notify_resolve
        set_self (λ e. record e { status = running })
        save env
        invalidate_reachable uuids
        for_each (start env) wtis
        modify (λ s. record s { self = find_row s.self s.db.workflow_executions })
        check_if_complete env false
        pure tt))
        s

  -- handle_timeout
  unfoldable pub handle_timeout : ℕ → Action (Unit {0})
  unfolding retry stop_running save
  handle_timeout depth = do
    set_self (λ e. record e { timed_out_attempts = e.timed_out_attempts + 1 })
    (λ s.
        (if ltb (s.self.timed_out_attempts + s.self.failed_attempts) workflow.default_max_retries
            then retry depth
            else do
              set_self (λ e. record e {
                status = terminated_after_time_out;
                marked_done_at = some now;
                finished_at = some now;
              })
              save env
              stop_running env workflow_execution_timed_out)
          s)
    set_self (λ e. record e { stop_reason = some max_execution_time_exceeded })
    save env

  abbrev pub exceeds : Option ℕ → ℕ → Bool
  exceeds none duration = false
  exceeds (some max_age) duration = ltb (seconds max_age) duration

  -- WorkflowExecutionChecker.check_timeout
  unfoldable pub check_timeout : ℕ → Action Bool
  unfolding handle_timeout
  check_timeout depth s =
      (if exceeds workflow.max_age_seconds (now - or_else s.self.started_at s.self.created_at)
          then handle_timeout depth >> pure true
          else pure false)
        s

  -- WorkflowExecutionChecker.check_workflow_execution
  unfoldable pub check_workflow_execution : ℕ → Action (Unit {0})
  unfolding check_timeout
  check_workflow_execution depth s =
      (if is_some s.self.finished_at then pure tt else (do
        modify (λ s. record s { self = find_row s.self s.db.workflow_executions })
        (λ s.
            (if is_in_progress s.self.status then check_timeout depth >> pure tt else pure tt) s)))
        s

-- ===== src/Workflow/Lifecycle/Keeping.antt =====
-- The methods that start, retry, run again and time out a workflow execution keep every property
-- of the instance executions that the engine keeps.
use task_manager.Prelude.{ℕ, false, Option, none, some, List, is_some}
use task_manager.Status.{workflow_execution_retried, workflow_execution_timed_out}
use task_manager.Workflow.Store.{InstanceRun, Workflow}
use task_manager.Workflow.Rows.{Env}
use task_manager.Workflow.Keeping.{
  Stable, Keeps, bind-Keeps, if-Keeps, try_except-Keeps, for_each-Keeps, save-Keeps, start-Keeps,
  check_if_complete-Keeps, stop_running-Keeps, retry_if_unsuccessful-Keeps, handle_finished-Keeps,
}
use task_manager.Workflow.Engine.{handle_finished}
use task_manager.Workflow.Lifecycle.{
  snapshot_or_new, reachable_from, unsuccessful_instances, demote_found, invalidate_reachable,
  manually_start, retry, start_task_instance_executions, handle_timeout, check_timeout,
  check_workflow_execution,
}

module _ (env : Env) (P : List InstanceRun → Type 0) (stable : Stable env P) where
  snapshot_or_new-Keeps : (w : Option Workflow) → Keeps P (snapshot_or_new env w)
  unfolding snapshot_or_new
  snapshot_or_new-Keeps (some w) s p = p
  snapshot_or_new-Keeps none s p =
      bind-Keeps P _ _ (λ s p. p) (λ _. bind-Keeps P _ _ (save-Keeps env P stable) (λ _ s p. p)) s p

  demote_found-Keeps : (found : Option (List ℕ)) → Keeps P (demote_found env found)
  demote_found-Keeps none s p = p
  demote_found-Keeps (some found) s p = stable.demoted _ s.db.instance_runs p

  pub invalidate_reachable-Keeps : (uuids : List ℕ) → Keeps P (invalidate_reachable env uuids)
  unfolding invalidate_reachable
  invalidate_reachable-Keeps uuids =
      bind-Keeps P _ _ (λ s p. snapshot_or_new-Keeps s.self.snapshot s p)
        (λ w. demote_found-Keeps (reachable_from env w uuids))

  pub manually_start-Keeps : Keeps P (manually_start env)
  unfolding manually_start
  manually_start-Keeps s p =
      if-Keeps P _ _ _ (λ s p. p)
        (try_except-Keeps P _ _
          (bind-Keeps P _ _ (λ s p. p)
            (λ _. bind-Keeps P _ _ (if-Keeps P (is_some env.user) _ _ (λ s p. p) (λ s p. p)) (λ _.
              bind-Keeps P _ _ (λ s p. p)
                (λ _. bind-Keeps P _ _ (save-Keeps env P stable) (λ _.
                  bind-Keeps P _ _ (for_each-Keeps P _ _ (start-Keeps env P stable)) (λ _.
                    bind-Keeps P _ _ (check_if_complete-Keeps env P stable false) (λ _ s p. p)))))))
          (bind-Keeps P _ _ (λ s p. p) (λ _. save-Keeps env P stable)))
        s p

  pub retry-Keeps : (depth : ℕ) → Keeps P (retry env depth)
  unfolding retry
  retry-Keeps depth =
      bind-Keeps P _ _ (λ s p. p)
        (λ _.
          bind-Keeps P _ _
            (try_except-Keeps P _ _
              (bind-Keeps P _ _ (stop_running-Keeps env P stable workflow_execution_retried) (λ _.
                bind-Keeps P _ _
                  (λ s p. invalidate_reachable-Keeps (unsuccessful_instances s.self.ident s.db) s p)
                  (λ _.
                    bind-Keeps P _ _ (λ s p. p)
                      (λ _. for_each-Keeps P _ _ (
                        retry_if_unsuccessful-Keeps env P stable (handle_finished env depth)
                          (handle_finished-Keeps env P stable depth))))))
              (λ s p. p))
            (λ _.
              bind-Keeps P _ _ (check_if_complete-Keeps env P stable false)
                (λ _. save-Keeps env P stable)))

  pub start_task_instance_executions-Keeps :
      (uuids : List ℕ) → Keeps P (start_task_instance_executions env uuids)
  unfolding start_task_instance_executions
  start_task_instance_executions-Keeps uuids s p =
      if-Keeps P _ _ _ (λ s p. p)
        (bind-Keeps P _ _ (λ s p. p)
          (λ _.
            bind-Keeps P _ _ (λ s p. p)
              (λ _. bind-Keeps P _ _ (save-Keeps env P stable) (λ _.
                bind-Keeps P _ _ (invalidate_reachable-Keeps uuids) (λ _.
                  bind-Keeps P _ _ (for_each-Keeps P _ _ (start-Keeps env P stable)) (λ _.
                    bind-Keeps P _ _ (λ s p. p)
                      (λ _.
                        bind-Keeps P _ _ (check_if_complete-Keeps env P stable false)
                          (λ _ s p. p))))))))
        s p

  pub handle_timeout-Keeps : (depth : ℕ) → Keeps P (handle_timeout env depth)
  unfolding handle_timeout
  handle_timeout-Keeps depth =
      bind-Keeps P _ _ (λ s p. p)
        (λ _.
          bind-Keeps P _ _
            (λ s p.
              if-Keeps P _ _ _ (retry-Keeps depth)
                (bind-Keeps P _ _ (λ s p. p)
                  (λ _.
                    bind-Keeps P _ _ (save-Keeps env P stable)
                      (λ _. stop_running-Keeps env P stable workflow_execution_timed_out)))
                s p)
            (λ _. bind-Keeps P _ _ (λ s p. p) (λ _. save-Keeps env P stable)))

  check_timeout-Keeps : (depth : ℕ) → Keeps P (check_timeout env depth)
  unfolding check_timeout
  check_timeout-Keeps depth s p =
      if-Keeps P _ _ _ (bind-Keeps P _ _ (handle_timeout-Keeps depth) (λ _ s p. p)) (λ s p. p) s p

  pub check_workflow_execution-Keeps : (depth : ℕ) → Keeps P (check_workflow_execution env depth)
  unfolding check_workflow_execution
  check_workflow_execution-Keeps depth s p =
      if-Keeps P _ _ _ (λ s p. p)
        (bind-Keeps P _ _ (λ s p. p)
          (λ _ s p.
            if-Keeps P _ _ _ (bind-Keeps P _ _ (check_timeout-Keeps depth) (λ _ s p. p)) (λ s p. p)
              s p))
        s p

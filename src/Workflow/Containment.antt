-- ===== src/Workflow/Containment.antt =====
-- What a finished instance execution and a stop request do to the rest of a workflow execution.
use task_manager.Prelude.{ℕ, suc, ◌≡◌, refl, Bool, true, false, [], ◌∷◌, arith, if◌then◌else◌}
use task_manager.Status.{stopping, stopped, status_in}
use task_manager.Workflow.Store.{InstanceRun}
use task_manager.Workflow.Action.{
  State, return, raise, Result, Action, pure, recover, try_except, ◌>>=◌,
}
use task_manager.Workflow.Rows.{Env}
use task_manager.Workflow.Saving.{save}
use task_manager.Workflow.Engine.{handle_finished, fail_execution, finish_body, activate_all}

save_returns : (env : Env) (s : State) → (save env s).0 ≡ return tt
unfolding save ◌>>=◌
save_returns env s = ground arith

recover_returns :
    (r : Result (Unit {0})) (handler : Action (Unit {0})) (s : State)
    → ((s : State) → (handler s).0 ≡ return tt)
    → (recover r handler s).0 ≡ return tt
recover_returns (return tt) handler s h = refl
recover_returns (raise e) handler s h = h s

fail_execution_returns : (env : Env) (s : State) → (fail_execution env s).0 ≡ return tt
unfolding ◌>>=◌
fail_execution_returns env s = save_returns env _

try_except_returns :
    (body handler : Action (Unit {0})) (s : State)
    → ((s : State) → (handler s).0 ≡ return tt)
    → (try_except body handler s).0 ≡ return tt
unfolding try_except
try_except_returns body handler s h = recover_returns (body s).0 handler (body s).1 h

if_returns :
    (b : Bool) (m : Action (Unit {0})) (s : State)
    → (m s).0 ≡ return tt
    → ((if b then pure tt else m) s).0 ≡ return tt
if_returns true m s h = refl
if_returns false m s h = h

-- While the recursion limit leaves a call, handle_workflow_task_instance_execution_finished returns
-- whatever its transitions, its task instances and the launches of tasks raise.
pub handle_finished_returns :
    (env : Env) (depth : ℕ) (r : InstanceRun) (skipped retry_mode : Bool) (s : State)
    → (handle_finished env (suc depth) r skipped retry_mode s).0 ≡ return tt
unfolding handle_finished
handle_finished_returns env depth r skipped retry_mode s =
    let body =
      finish_body env (activate_all env (handle_finished env depth)) r skipped retry_mode in
    if_returns (status_in s.self.status (stopping ∷ stopped ∷ []))
      (try_except body (fail_execution env)) s
      (try_except_returns body (fail_execution env) s (fail_execution_returns env))

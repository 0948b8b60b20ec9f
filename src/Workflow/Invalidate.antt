-- ===== src/Workflow/Invalidate.antt =====
-- Which instance executions lose their `is_latest` flag when a workflow execution is retried.
use task_manager.Prelude.{
  ℕ, ◌≡◌, refl, ap, true, false, some, List, [], ◌∷◌, ◌==◌, arith, Bool-cases, inl, inr, ==_iff,
  All,
}
use task_manager.Status.{running, succeeded}
use task_manager.Workflow.Completion.{compute_updated_status}
use task_manager.Workflow.Completion.Verdict.{compute_updated_status-verdict, verdict}
use task_manager.Workflow.Store.{
  InstanceRun, Workflow, Evaluation, TaskRun, latest_runs, demote, currents, is_latest_of,
  demote_run,
}
use task_manager.Workflow.Action.{State, ◌>>=◌}
use task_manager.Workflow.Rows.{Env}
use task_manager.Workflow.Lifecycle.{
  member, reachable_from, snapshot_or_new, invalidate_reachable, demote_found,
}

not_latest-demoted :
    (e wti : ℕ) (found : List ℕ) (r : InstanceRun)
    → member found wti ≡ true
    → is_latest_of e wti (demote_run (λ r. member found r.task_instance) r) ≡ false
not_latest-demoted e wti found r h = elim (Bool-cases (r.task_instance == wti)) [
  | inl same ↦ ground (arith, ap (member found) ((==_iff r.task_instance wti).0 same))
  | inr other ↦ elim (Bool-cases (member found r.task_instance)) [
    | inl m ↦ ground arith
    | inr m ↦ ground arith
  ]
]

latest-demote :
    (e wti : ℕ) (found : List ℕ) (runs : List InstanceRun)
    → member found wti ≡ true
    → latest_runs e wti (demote (λ r. member found r.task_instance) runs) ≡ []
unfolding demote
latest-demote e wti found [] h = refl
latest-demote e wti found (r ∷ rs) h =
    rw (not_latest-demoted e wti found r h) (latest-demote e wti found rs h)

invalidate_reachable_lem :
    (env : Env) (uuids found : List ℕ) (w : Workflow) (s : State)
    → s.self.snapshot ≡ some w
    → reachable_from env w uuids ≡ some found
    → (invalidate_reachable env uuids s).1.db.instance_runs
      ≡ demote (λ r. member found r.task_instance) s.db.instance_runs
unfolding invalidate_reachable snapshot_or_new ◌>>=◌
invalidate_reachable_lem env uuids found w s hs hf =
    rw (hs, snapshot_or_new) (rw (hf, demote_found))

-- When the reachable task instances of a retried or restarted workflow execution are invalidated,
-- no workflow execution at all keeps a latest execution of a task instance that was reached,
-- whether or not it is the one that is retried.
pub invalidate_reachable-all_executions :
    (env : Env) (uuids found : List ℕ) (w : Workflow) (s : State) (other wti : ℕ)
    → s.self.snapshot ≡ some w
    → reachable_from env w uuids ≡ some found
    → member found wti ≡ true
    → latest_runs other wti (invalidate_reachable env uuids s).1.db.instance_runs ≡ []
invalidate_reachable-all_executions env uuids found w s other wti hs hf hm =
    rw (invalidate_reachable_lem env uuids found w s hs hf)
      (latest-demote other wti found s.db.instance_runs hm)

-- Every instance execution of the workflow execution is of a task instance that was reached.
abbrev pub AllReached : ℕ → List ℕ → List InstanceRun → Type 0
AllReached e found runs =
    All (λ (r : InstanceRun). r.workflow_execution ≡ e → member found r.task_instance ≡ true) runs

currents-demote :
    (w : Workflow) (e : ℕ) (tasks : List TaskRun) (evaluations : List Evaluation) (found : List ℕ)
    (runs : List InstanceRun)
    → AllReached e found runs
    → currents w e tasks evaluations (demote (λ r. member found r.task_instance) runs) ≡ []
unfolding currents demote
currents-demote w e tasks evaluations found [] h = refl
currents-demote w e tasks evaluations found (r ∷ rs) (h, hs) =
    elim (Bool-cases (r.workflow_execution == e)) [
      | inl same ↦
          ground (arith, h ((==_iff _ _).0 same), currents-demote w e tasks evaluations found rs hs)
      | inr other ↦ ground (arith, currents-demote w e tasks evaluations found rs hs)
    ]

-- Another RUNNING workflow execution, all of whose instance executions are of task instances that
-- the retried one reached, is computed as SUCCEEDED afterwards, whatever its task executions do.
pub invalidate_reachable-other_succeeds :
    (env : Env) (uuids found : List ℕ) (w : Workflow) (s : State) (other : ℕ) (tasks : List TaskRun)
    (evaluations : List Evaluation)
    → s.self.snapshot ≡ some w
    → reachable_from env w uuids ≡ some found
    → AllReached other found s.db.instance_runs
    → compute_updated_status running
        (currents w other tasks evaluations (invalidate_reachable env uuids s).1.db.instance_runs)
        false
      ≡ succeeded
unfolding verdict
invalidate_reachable-other_succeeds env uuids found w s other tasks evaluations hs hf h =
    rw (invalidate_reachable_lem env uuids found w s hs hf) (
      rw (currents-demote w other tasks evaluations found s.db.instance_runs h)
        (compute_updated_status-verdict [] false))

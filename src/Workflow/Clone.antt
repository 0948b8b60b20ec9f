-- ===== src/Workflow/Clone.antt =====
-- server/processes/models/workflow.py: the copy of a workflow's task instances and transitions by
-- Workflow.clone. The database gives new rows consecutive ids.
pub mod Copies
use task_manager.Prelude.{
  ℕ, suc, Option, none, some, List, [], ◌∷◌, ◌==◌, if◌then◌else◌, first_some, length,
}
use task_manager.Workflow.Types.{TaskInstance}
use task_manager.Workflow.Transition.{Transition}
use task_manager.Workflow.Store.{Workflow}
use task_manager.Workflow.Timing.{exceeds}
use task_manager.Limits.{UsageLimits}

-- `original_to_cloned_wti_id`; an entry that comes later overwrites one with the same key.
abbrev pub Ids : Type 0
Ids = List (ℕ × ℕ)

unfoldable pub get_id : ℕ → Ids → Option ℕ
get_id k [] = none
get_id k ((i, j) ∷ ids) = first_some (get_id k ids) (if i == k then some j else none)

-- The loop over the task instances: the new rows, the next one with the id `next`.
unfoldable pub clone_instances : ℕ → List TaskInstance → List TaskInstance
clone_instances next [] = []
clone_instances next (wti ∷ wtis) = record wti { ident = next } ∷ clone_instances (suc next) wtis

unfoldable pub cloned_ids : ℕ → List TaskInstance → Ids
cloned_ids next [] = []
cloned_ids next (wti ∷ wtis) = (wti.ident, next) ∷ cloned_ids (suc next) wtis

abbrev pub cloned_transition : ℕ → Transition → Option ℕ → Option ℕ → Option Transition
cloned_transition next t none to = none
cloned_transition next t (some from) none = none
cloned_transition next t (some from) (some to) =
    some (record t {
      ident = next;
      from_workflow_task_instance = from;
      to_workflow_task_instance = to;
    })

abbrev pub prepend : Option Transition → Option (List Transition) → Option (List Transition)
prepend none ts = none
prepend (some t) none = none
prepend (some t) (some ts) = some (t ∷ ts)

-- The loop over the transitions; `none` is a KeyError
unfoldable pub clone_transitions : Ids → ℕ → List Transition → Option (List Transition)
unfolding get_id
clone_transitions ids next [] = some []
clone_transitions ids next (t ∷ ts) =
    prepend
      (cloned_transition next t (get_id t.from_workflow_task_instance ids)
        (get_id t.to_workflow_task_instance ids))
      (clone_transitions ids (suc next) ts)

abbrev pub with_transitions :
    Workflow → List TaskInstance → Option (List Transition) → Option Workflow
with_transitions w wtis none = none
with_transitions w wtis (some ts) = some (record w { task_instances = wtis; transitions = ts })

-- Workflow.clone, where new task instances and transitions have ids from `next_wti` and `next_wt`
-- on, and the group has `existing_count` workflows; `none` is an exception. The first save of the
-- copy is one of a new workflow without a schedule, so that pre_save_workflow only tests the limit.
unfoldable pub clone : UsageLimits → ℕ → ℕ → ℕ → Workflow → Option Workflow
unfolding clone_instances cloned_ids clone_transitions
clone limits existing_count next_wti next_wt w =
    if exceeds limits.max_workflows existing_count
    then none
    else with_transitions w (clone_instances next_wti w.task_instances)
        (clone_transitions (cloned_ids next_wti w.task_instances) next_wt w.transitions)

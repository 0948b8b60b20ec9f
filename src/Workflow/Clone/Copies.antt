-- ===== src/Workflow/Clone/Copies.antt =====
-- The clone of a workflow is a copy of it under other ids.
use task_manager.Prelude.{
  ℕ, ◌≡◌, Bool, Option, none, some, List, [], ◌∷◌, map, ◌==◌, if◌then◌else◌, first_some, exists_in,
  ◌&&◌,
}
use task_manager.Workflow.Types.{TaskInstance}
use Prim.Native.String.{String}
use task_manager.Workflow.Transition.{RuleType, Transition}
use task_manager.Workflow.Store.{Workflow}
use task_manager.Workflow.Clone.{Ids, cloned_ids, clone_transitions}

-- The task instance that has been cloned as `j`.
pub original_id : ℕ → Ids → Option ℕ
original_id j [] = none
original_id j ((i, k) ∷ ids) = first_some (original_id j ids) (if k == j then some i else none)

-- The task instances include one with this id.
abbrev pub is_member : List TaskInstance → ℕ → Bool
is_member wtis k = exists_in (λ wti. wti.ident == k) wtis

-- What a transition says, of task instances that are known by the ids of the original.
abbrev pub Content : Type 0
Content = Option ℕ × Option ℕ × RuleType × Option (List String)

abbrev pub content : Transition → Content
content t = (
  some t.from_workflow_task_instance,
  some t.to_workflow_task_instance,
  t.rule_type,
  t.exit_codes,
)

abbrev pub original_content : Ids → Transition → Content
original_content ids t = (
  original_id t.from_workflow_task_instance ids,
  original_id t.to_workflow_task_instance ids,
  t.rule_type,
  t.exit_codes,
)

abbrev pub joins_members : List TaskInstance → Transition → Bool
joins_members wtis t =
    is_member wtis t.from_workflow_task_instance && is_member wtis t.to_workflow_task_instance

-- The copies of a list of transitions, under the ids `ids`.
abbrev Copied : Ids → ℕ → List Transition → Type 0
Copied ids next ts =
    (us : List Transition) × (clone_transitions ids next ts ≡ some us)
    × (map (original_content ids) us ≡ map content ts)

-- What the clone of a workflow is: the task instances with new ids, in order, and transitions that
-- say the same of the original task instances.
pub IsCloneOf : ℕ → Workflow → Workflow → Type 0
IsCloneOf base w v =
    (map (λ (wti : TaskInstance). record wti { ident = 0 }) v.task_instances
      ≡ map (λ (wti : TaskInstance). record wti { ident = 0 }) w.task_instances)
    × (map (original_content (cloned_ids base w.task_instances)) v.transitions
        ≡ map content w.transitions)

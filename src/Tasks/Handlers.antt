-- ===== src/Tasks/Handlers.antt =====
-- server/processes/models/task.py: the synchronization of a Task as a whole, and the handlers of
-- its saving and deletion.
use task_manager.Prelude.{
  ℕ, Bool, true, false, not, ◌&&◌, Option, none, some, List, [], ◌∷◌, ◌++◌, ◌==◌, leb,
  if◌then◌else◌, is_some, Time,
}
use task_manager.Limits.{UsageLimits}
use task_manager.Tasks.{
  Task, ExecutionMethod, Step, step, Call, call, synchronize_scheduled, synchronize_service,
  has_active_managed_scheduled_execution, is_active_managed_service, teardown_scheduled_execution,
  teardown_service,
}

-- `None` and equal schedules are the same.
abbrev pub same_schedule : Option ℕ → Option ℕ → Bool
same_schedule none none = true
same_schedule none (some y) = false
same_schedule (some x) none = false
same_schedule (some x) (some y) = x == y

abbrev pub note_schedule : Time → Option Task → Task → Task
note_schedule now none self = self
note_schedule now (some o) self =
    if same_schedule self.schedule o.schedule
    then self
    else record self { schedule_updated_at = some now }

abbrev pub was_passive : Option Task → Bool
was_passive none = true
was_passive (some o) = o.passive

-- The service after the schedule; the service's part starts from the row that the schedule's part
-- leaves.
abbrev pub then_service : (Option Task → Task → Step) → Step → Step
then_service service s = elim s.result [
  | none ↦ s
  | some t ↦ let r = service s.row t in step (s.calls ++ r.calls) r.row r.result
]

-- synchronize_with_run_environment, with the copy that was loaded and the row in the database
unfoldable pub synchronize_with_run_environment :
    (Task → ExecutionMethod) → Time → Option Task → Option Task → Task → Step
unfolding synchronize_scheduled synchronize_service
synchronize_with_run_environment method now old row self =
    if self.passive && was_passive old
    then step [] row (some self)
    else then_service (λ r t. synchronize_service method old r now t)
        (synchronize_scheduled method old row (note_schedule now old self))

-- `existing_count >= limit`
abbrev pub exceeds : Option ℕ → ℕ → Bool
exceeds none n = false
exceeds (some limit) n = leb limit n

-- pre_save_task of a Task that has a row, or of a new one where its group has `existing_count`
-- Tasks; `skip` is should_skip_synchronize_with_run_environment
unfoldable pub pre_save_task :
    (Task → ExecutionMethod)
    → UsageLimits
    → ℕ
    → Bool
    → Time
    → Option Task
    → Option Task
    → Task
    → Step
unfolding synchronize_with_run_environment
pre_save_task method limits existing_count skip now old row self =
    if not (is_some row) && exceeds limits.max_tasks existing_count
    then step [] row none
    else if skip
    then step [] row (some self)
    else synchronize_with_run_environment method now old row self

-- pre_delete_task: the calls, and whether all of them returned
unfoldable pub pre_delete_task : (Task → ExecutionMethod) → Task → List Call × Bool
unfolding has_active_managed_scheduled_execution is_active_managed_service
pre_delete_task method t =
    let scheduled = is_some ((method t).teardown_scheduled t) in
    let served = is_some ((method t).teardown_of_service t) in
    if not (t.enabled && not t.passive)
    then ([], true)
    else if has_active_managed_scheduled_execution true t
    then (if not scheduled
        then (call teardown_scheduled_execution false ∷ [], false)
        else if is_active_managed_service true t
        then (call teardown_scheduled_execution true ∷ call teardown_service served ∷ [], served)
        else (call teardown_scheduled_execution true ∷ [], true))
    else if is_active_managed_service true t
    then (call teardown_service served ∷ [], served)
    else ([], true)

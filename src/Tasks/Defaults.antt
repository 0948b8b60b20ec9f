-- ===== src/Tasks/Defaults.antt =====
-- server/processes/execution_methods/execution_method.py: what the base class of the execution
-- methods answers.
use task_manager.Prelude.{
  ◌≡◌, ◌≢◌, refl, sym, Bool, true, false, not, ◌&&◌, ◌||◌, Option, none, some, List, [], ◌∷◌,
  if◌then◌else◌, is_some, or_else, ◌==◌,
}
use task_manager.Tasks.{
  Task, has_active_managed_scheduled_execution, ExecutionMethod, was_active, Call, call,
  teardown_scheduled_execution, teardown_service, managed_or,
}
use task_manager.Tasks.Handlers.{same_schedule, pre_delete_task}
use task_manager.Tasks.Agreement.{exists_after}
use task_manager.Tasks.Scheduling.{UpdatesChanges, absurd}

-- `==` on the Boolean answers.
abbrev pub same_answer : Bool → Bool → Bool
same_answer true b = b
same_answer false b = not b

-- should_maybe_update_scheduled_execution, where `none` is None
unfoldable pub should_maybe_update_scheduled_execution : Task → Option Task → Option Bool
unfolding has_active_managed_scheduled_execution
should_maybe_update_scheduled_execution self none =
    some (has_active_managed_scheduled_execution false self)
should_maybe_update_scheduled_execution self (some old) =
    let should_schedule = has_active_managed_scheduled_execution false self in
    let was_scheduled = has_active_managed_scheduled_execution true old in
    if not (same_answer should_schedule was_scheduled)
    then some true
    else if not should_schedule && not was_scheduled
    then some false
    else if not (same_schedule self.schedule old.schedule)
        || (not (self.scheduling_provider_type == old.scheduling_provider_type)
            || not (same_schedule self.scheduled_instance_count old.scheduled_instance_count))
    then some true
    else none

-- should_update_or_force_recreate_scheduled_execution
unfoldable pub should_update_or_force_recreate : Task → Option Task → Bool × Bool
unfolding should_maybe_update_scheduled_execution
should_update_or_force_recreate self old =
    (or_else (should_maybe_update_scheduled_execution self old) true, false)

-- The base class: no capabilities; every setup raises an exception, and a teardown does nothing.
abbrev pub base_method : ExecutionMethod
base_method = record {
  supports_scheduling = false;
  supports_setup_service = false;
  should_update_or_force_recreate_scheduled_execution = should_update_or_force_recreate;
  should_update_or_force_recreate_service = λ self old. (false, false);
  setup_scheduled = λ t force. none;
  teardown_scheduled = λ t. some none;
  setup_of_service = λ t force. none;
  teardown_of_service = λ t. some none;
}

differ_answer : (x y : Bool) → x ≢ y → same_answer x y ≡ false
differ_answer true true h = elim (h refl) [ ]
differ_answer false false h = elim (h refl) [ ]
differ_answer true false h = refl
differ_answer false true h = refl

true_of_ne_false : (x : Bool) → x ≢ false → x ≡ true
true_of_ne_false true h = refl
true_of_ne_false false h = elim (h refl) [ ]

updates :
    (self : Task) (old : Option Task)
    → has_active_managed_scheduled_execution false self
      ≢ was_active (has_active_managed_scheduled_execution true) old
    → (should_update_or_force_recreate self old).0 ≡ true
unfolding should_update_or_force_recreate
updates self none d = true_of_ne_false (has_active_managed_scheduled_execution false self) d
updates self (some o) d = rw (differ_answer _ _ d) refl

-- An execution method that decides on updates as the base class does updates the schedule of a Task
-- whenever it is to be active and was not, or the other way round.
pub should_update_or_force_recreate-UpdatesChanges :
    (m : ExecutionMethod)
    → m.should_update_or_force_recreate_scheduled_execution ≡ should_update_or_force_recreate
    → UpdatesChanges m
unfolding UpdatesChanges
should_update_or_force_recreate-UpdatesChanges m h self old d = rw h (updates self old d)

-- The calls of the handler, by the conditions that it tests.
abbrev deletion : Bool → Bool → Bool → Bool → Bool → Bool → List Call × Bool
deletion e p a s x y =
    if not (e && not p)
    then ([], true)
    else if e && (not p && a)
    then (if not x
        then (call teardown_scheduled_execution false ∷ [], false)
        else if s
        then (call teardown_scheduled_execution true ∷ call teardown_service y ∷ [], y)
        else (call teardown_scheduled_execution true ∷ [], true))
    else if s
    then (call teardown_service y ∷ [], y)
    else ([], true)

deletion-removes :
    (e p a s x y b : Bool)
    → (e && (not p && a)) ≡ b
    → (deletion e p a s x y).1 ≡ true
    → exists_after b (deletion e p a s x y).0 ≡ false
unfolding exists_after
deletion-removes false p a s x y b h r = sym h
deletion-removes true true a s x y b h r = sym h
deletion-removes true false true s false y b h r = absurd r
deletion-removes true false true true true y b h r = refl
deletion-removes true false true false true y b h r = refl
deletion-removes true false false true x y b h r = sym h
deletion-removes true false false false x y b h r = sym h

-- After the handler of a Task's deletion has returned, the schedule does not exist, if before it
-- the Task had an active managed schedule exactly if the schedule existed.
pub pre_delete_task-removes :
    (method : Task → ExecutionMethod) (t : Task) (b : Bool)
    → has_active_managed_scheduled_execution true t ≡ b
    → (pre_delete_task method t).1 ≡ true
    → exists_after b (pre_delete_task method t).0 ≡ false
unfolding pre_delete_task exists_after
pre_delete_task-removes method t b h r =
    deletion-removes t.enabled t.passive
      (is_some t.schedule && managed_or t.is_scheduling_managed false)
      (t.enabled && (not t.passive && (t.is_service && managed_or t.is_service_managed false)))
      (is_some ((method t).teardown_scheduled t)) (is_some ((method t).teardown_of_service t)) b h r

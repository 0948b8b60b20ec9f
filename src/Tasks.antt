-- ===== src/Tasks.antt =====
-- server/processes/models/task.py and execution_methods/execution_method.py: how a Task's schedule
-- and service are set up and torn down in its run environment when the Task is saved or deleted.
-- What an execution method does there is a parameter; its calls are recorded in order. Settings are
-- numbers, and a schedule that is empty is none.
pub mod Handlers
pub mod Agreement
pub mod Scheduling
pub mod Defaults
pub mod Validation
pub mod Updates
use task_manager.Prelude.{
  ℕ, Bool, true, false, not, ◌&&◌, ◌||◌, Option, none, some, List, [], ◌∷◌, ◌++◌, ◌==◌, leb,
  if◌then◌else◌, is_some, or_else, Time,
}
use task_manager.Limits.{UsageLimits}

-- The fields of a Task that are read or written here; `is_service` is whether
-- service_instance_count is given.
pub record Task : Type 0 where
  pub execution_method_type : ℕ
  pub passive : Bool
  pub enabled : Bool
  pub schedule : Option ℕ
  pub scheduling_provider_type : ℕ
  pub scheduled_instance_count : Option ℕ
  pub is_scheduling_managed : Option Bool
  pub scheduling_settings : Option ℕ
  pub schedule_updated_at : Option Time
  pub is_service : Bool
  pub is_service_managed : Option Bool
  pub service_settings : Option ℕ
  pub aws_ecs_service_updated_at : Option Time

-- `coalesce(managed, not current)`
abbrev pub managed_or : Option Bool → Bool → Bool
managed_or none default = default
managed_or (some managed) default = managed

-- has_active_managed_scheduled_execution
unfoldable pub has_active_managed_scheduled_execution : Bool → Task → Bool
has_active_managed_scheduled_execution current t =
    t.enabled
    && (not t.passive && (is_some t.schedule && managed_or t.is_scheduling_managed (not current)))

-- is_active_managed_service
unfoldable pub is_active_managed_service : Bool → Task → Bool
is_active_managed_service current t =
    t.enabled && (not t.passive && (t.is_service && managed_or t.is_service_managed (not current)))

-- What is called on an execution method.
pub data Operation : Type 0 where
  setup_scheduled_execution teardown_scheduled_execution setup_service teardown_service : Operation

-- A call, and whether it returned without an exception.
pub record Call : Type 0 where
  pub operation : Operation
  pub returned : Bool

abbrev pub call : Operation → Bool → Call
call o b = record { operation = o; returned = b }

-- An execution method. A setup gets the Task and `force_creation`, and a teardown the Task; they
-- give the new settings of the Task, or raise an exception, which is `none`. A teardown that is
-- called twice answers the same.
pub record ExecutionMethod : Type 0 where
  pub supports_scheduling : Bool
  pub supports_setup_service : Bool
  pub should_update_or_force_recreate_scheduled_execution : Task → Option Task → Bool × Bool
  pub should_update_or_force_recreate_service : Task → Option Task → Bool × Bool
  pub setup_scheduled : Task → Bool → Option (Option ℕ)
  pub teardown_scheduled : Task → Option (Option ℕ)
  pub setup_of_service : Task → Bool → Option (Option ℕ)
  pub teardown_of_service : Task → Option (Option ℕ)

-- The calls, the Task's row in the database, and the Task that is to be saved, unless there is an
-- exception.
pub record Step : Type 0 where
  pub calls : List Call
  pub row : Option Task
  pub result : Option Task

abbrev pub step : List Call → Option Task → Option Task → Step
step calls row result = record { calls = calls; row = row; result = result }

abbrev pub was_active : (Task → Bool) → Option Task → Bool
was_active f none = false
was_active f (some t) = f t

-- The row after a failed setup, if the old setup had been torn down with these settings.
abbrev pub disable_scheduled : Option (Option ℕ) → Option Task → Option Task
disable_scheduled none row = row
disable_scheduled (some settings) none = none
disable_scheduled (some settings) (some t) =
    some (record t { enabled = false; scheduling_settings = settings })

abbrev pub disable_service : Time → Option (Option ℕ) → Option Task → Option Task
disable_service now none row = row
disable_service now (some settings) none = none
disable_service now (some settings) (some t) = some (record t {
  enabled = false;
  service_settings = settings;
  aws_ecs_service_updated_at = some now;
})

-- `None` unless it is False
abbrev pub unmanaged : Option Bool → Option Bool
unmanaged none = none
unmanaged (some b) = if b then none else some false

module _ (method : Task → ExecutionMethod) (old row : Option Task) where
  -- The setup, or the teardown of a schedule that is no longer managed, after the calls so far.
  abbrev pub finish_scheduled : Bool → Bool → Task → List Call → Option (Option ℕ) → Step
  finish_scheduled true force self calls torn = elim ((method self).setup_scheduled self force) [
    | none ↦
        step (calls ++ (call setup_scheduled_execution false ∷ [])) (disable_scheduled torn row)
          none
    | some settings ↦
        step (calls ++ (call setup_scheduled_execution true ∷ [])) row
          (some (record self { is_scheduling_managed = some true; scheduling_settings = settings }))
  ]
  finish_scheduled false force self calls torn = elim old [
    | none ↦
        step calls row
          (some (record self { is_scheduling_managed = unmanaged self.is_scheduling_managed }))
    | some o ↦ elim ((method o).teardown_scheduled o) [
      | none ↦ step (calls ++ (call teardown_scheduled_execution false ∷ [])) row none
      | some settings ↦ step (calls ++ (call teardown_scheduled_execution true ∷ [])) row (
          some (record self {
            is_scheduling_managed = unmanaged self.is_scheduling_managed;
            scheduling_settings = settings;
          }))
    ]
  ]

  -- The teardown of the old schedule, where one is due.
  abbrev pub replace_scheduled : Bool → Bool → Task → Step
  replace_scheduled will force self = elim old [
    | none ↦ finish_scheduled will force self [] none
    | some o ↦
        if (force || not will) && has_active_managed_scheduled_execution true o
        then elim ((method o).teardown_scheduled o) [
          | none ↦ step (call teardown_scheduled_execution false ∷ []) row none
          | some settings ↦
              finish_scheduled will force self (call teardown_scheduled_execution true ∷ [])
                (some settings)
        ]
        else finish_scheduled will force self [] none
  ]

  -- The part of synchronize_with_run_environment for the schedule.
  unfoldable pub synchronize_scheduled : Task → Step
  unfolding has_active_managed_scheduled_execution
  synchronize_scheduled self =
      let should = (method self).should_update_or_force_recreate_scheduled_execution self old in
      let will = has_active_managed_scheduled_execution false self in
      if not should.0
      then step [] row (some self)
      else if will && not (method self).supports_scheduling
      then step [] row none
      else replace_scheduled will should.1 self

  abbrev pub finish_service : Time → Bool → Bool → Task → List Call → Option (Option ℕ) → Step
  finish_service now true force self calls torn = elim ((method self).setup_of_service self force) [
    | none ↦ step (calls ++ (call setup_service false ∷ [])) (disable_service now torn row) none
    | some settings ↦
        step (calls ++ (call setup_service true ∷ [])) row
          (some (record self { is_service_managed = some true; service_settings = settings }))
  ]
  finish_service now false force self calls torn = elim old [
    | none ↦
        step calls row
          (some (record self { is_service_managed = unmanaged self.is_service_managed }))
    | some o ↦ elim ((method o).teardown_of_service o) [
      | none ↦ step (calls ++ (call teardown_service false ∷ [])) row none
      | some settings ↦ step (calls ++ (call teardown_service true ∷ [])) row (
          some (record self {
            is_service_managed = unmanaged self.is_service_managed;
            service_settings = settings;
          }))
    ]
  ]

  abbrev pub replace_service : Time → Bool → Bool → Task → Step
  replace_service now will force self = elim old [
    | none ↦ finish_service now will force self [] none
    | some o ↦
        if (force || not will) && is_active_managed_service true o
        then elim ((method o).teardown_of_service o) [
          | none ↦ step (call teardown_service false ∷ []) row none
          | some settings ↦
              finish_service now will force self (call teardown_service true ∷ []) (some settings)
        ]
        else finish_service now will force self [] none
  ]

  -- The part of synchronize_with_run_environment for the service.
  unfoldable pub synchronize_service : Time → Task → Step
  unfolding is_active_managed_service
  synchronize_service now self =
      let should = (method self).should_update_or_force_recreate_service self old in
      let will = is_active_managed_service false self in
      if not should.0
      then step [] row (some self)
      else if will && not (method self).supports_setup_service
      then step [] row none
      else replace_service now will should.1 self

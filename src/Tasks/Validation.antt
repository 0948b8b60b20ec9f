-- ===== src/Tasks/Validation.antt =====
-- server/processes/serializers/task_serializer.py: how a request's body and the existing Task
-- decide on whether a Task is a service or scheduled. Missing entries are None; the fields have
-- refused negative numbers. An empty schedule is `some none` in a body and none in a Task.
pub mod Consistent
use task_manager.Prelude.{
  ℕ, max, Bool, true, false, not, ◌&&◌, Option, none, some, leb, ltb, if◌then◌else◌, is_some,
  is_truthy, first_some, or_else,
}

-- The entries of `validated` and of `data`.
pub record Body : Type 0 where
  pub is_service : Option Bool
  pub service_instance_count : Option ℕ
  pub min_service_instance_count : Option ℕ
  pub is_service_managed : Option Bool
  pub schedule : Option (Option ℕ)
  pub scheduled_instance_count : Option ℕ
  pub is_scheduling_managed : Option Bool

-- These fields of a Task.
pub record Setup : Type 0 where
  pub service_instance_count : Option ℕ
  pub min_service_instance_count : Option ℕ
  pub is_service_managed : Option Bool
  pub schedule : Option ℕ
  pub scheduled_instance_count : Option ℕ
  pub is_scheduling_managed : Option Bool

-- The truth value of an optional Boolean.
abbrev pub truthy : Option Bool → Bool
truthy none = false
truthy (some b) = b

abbrev pub is_false : Option Bool → Bool
is_false none = false
is_false (some b) = not b

-- An entry of services: an error for a Task that is given as no service, or else it is one. `none`
-- is a ValidationError.
abbrev pub require_service : Bool → Option (Option Bool) → Option (Option Bool)
require_service present none = none
require_service present (some is_service) =
    if not present then some is_service else if is_false is_service then none else some (some true)

-- An entry of scheduled Tasks.
abbrev pub forbid_service : Bool → Option (Option Bool) → Option (Option Bool)
forbid_service present none = none
forbid_service present (some is_service) =
    if not present then some is_service else if truthy is_service then none else some (some false)

-- `is_service`, from the body alone
unfoldable pub service_of_body : Body → Option (Option Bool)
service_of_body b = forbid_service (truthy b.is_scheduling_managed) (
    forbid_service (is_truthy b.scheduled_instance_count) (
      require_service (truthy b.is_service_managed) (
        require_service (is_truthy b.min_service_instance_count)
          (require_service (is_truthy b.service_instance_count) (some b.is_service)))))

-- The body and the existing Task, `is_service or False` and `schedule or ''`.
pub record Merged : Type 0 where
  pub is_service : Bool
  pub is_service_managed : Option Bool
  pub schedule : Option ℕ
  pub is_scheduling_managed : Option Bool

abbrev pub kept : Bool → Option Bool → Option Bool → Option Bool
kept applies given existing = if applies then first_some given existing else given

abbrev pub merged : Body → Setup → Bool → Option ℕ → Merged
merged b t is_service schedule = record {
  is_service = is_service;
  is_service_managed = kept is_service b.is_service_managed t.is_service_managed;
  schedule = schedule;
  is_scheduling_managed = kept (is_some schedule) b.is_scheduling_managed t.is_scheduling_managed;
}

-- The branch for an existing Task.
abbrev pub merge_existing : Body → Setup → Option Bool → Merged
merge_existing b t is_service =
    if is_some is_service
    then merged b t (truthy is_service) (or_else b.schedule none)
    else if is_some b.schedule
    then merged b t false (or_else b.schedule none)
    else if is_some t.service_instance_count
    then merged b t true none
    else merged b t false t.schedule

abbrev pub merge_task : Body → Option Setup → Option Bool → Merged
merge_task b none is_service = record {
  is_service = truthy is_service;
  is_service_managed = b.is_service_managed;
  schedule = or_else b.schedule none;
  is_scheduling_managed = b.is_scheduling_managed;
}
merge_task b (some t) is_service = merge_existing b t is_service

abbrev pub existing_count : (Setup → Option ℕ) → Option Setup → Option ℕ
existing_count f none = none
existing_count f (some t) = f t

-- `x if given, else max(coalesce(...), least)`
abbrev pub given_or : Option ℕ → ℕ → ℕ
given_or none default = default
given_or (some n) default = n

abbrev pub service_count : Body → Option Setup → ℕ
service_count b o = given_or b.service_instance_count (
    max
      (or_else
        (first_some (existing_count (λ t. t.service_instance_count) o) b.min_service_instance_count)
        1)
      1)

abbrev pub min_service_count : Body → Option Setup → ℕ
min_service_count b o =
    given_or b.min_service_instance_count
      (or_else (existing_count (λ t. t.min_service_instance_count) o) 0)

abbrev pub scheduled_count : Body → Option Setup → ℕ
scheduled_count b o =
    given_or b.scheduled_instance_count
      (max (or_else (existing_count (λ t. t.scheduled_instance_count) o) 1) 1)

-- The fields of the schedule, after those of the service.
abbrev pub with_schedule :
    Body → Option Setup → Merged → Option ℕ → Option ℕ → Option Bool → Option Setup
with_schedule b o m count least managed =
    if is_some m.schedule
    then some (record {
      service_instance_count = count;
      min_service_instance_count = least;
      is_service_managed = managed;
      schedule = m.schedule;
      scheduled_instance_count = some (scheduled_count b o);
      is_scheduling_managed = m.is_scheduling_managed;
    })
    else if truthy m.is_scheduling_managed
    then none
    else some (record {
      service_instance_count = count;
      min_service_instance_count = least;
      is_service_managed = managed;
      schedule = none;
      scheduled_instance_count = none;
      is_scheduling_managed = none;
    })

abbrev pub check_merged : Body → Option Setup → Merged → Option Setup
check_merged b o m =
    if m.is_service
    then (if is_some m.schedule
        then none
        else if ltb (service_count b o) (min_service_count b o)
        then none
        else with_schedule b o m (some (service_count b o)) (some (min_service_count b o))
            m.is_service_managed)
    else if truthy m.is_service_managed
    then none
    else with_schedule b o m none none none

abbrev pub validate_service : Body → Option Setup → Option (Option Bool) → Option Setup
validate_service b o none = none
validate_service b o (some is_service) = check_merged b o (merge_task b o is_service)

-- The part of to_internal_value that decides on these fields.
unfoldable pub validate : Body → Option Setup → Option Setup
unfolding service_of_body
validate b o = validate_service b o (service_of_body b)

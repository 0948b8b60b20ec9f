-- ===== src/Tasks/Validation/Consistent.antt =====
-- What a validated Task's service and schedule look like.
use mathlib.Core.Option as Option
use task_manager.Prelude.{
  ℕ, ◌≡◌, refl, Bool, true, false, not, ◌&&◌, Option, none, some, leb, ltb, if◌then◌else◌, is_some,
  arith, ◌<◌,
}
use task_manager.Tasks.Validation.{
  Body, Setup, Merged, truthy, service_of_body, merge_task, check_merged, with_schedule,
  validate_service, validate, service_count, min_service_count,
}

abbrev pub within : Option ℕ → Option ℕ → Bool
within least none = false
within none (some count) = false
within (some m) (some count) = leb m count

-- A Task is a service with enough instances, or has no settings of one; and it is scheduled, with a
-- number of instances, or has no settings of a schedule; but it is not both.
abbrev pub is_consistent : Setup → Bool
is_consistent v =
    (if is_some v.service_instance_count
      then not (is_some v.schedule) && within v.min_service_instance_count v.service_instance_count
      else not (is_some v.min_service_instance_count) && not (is_some v.is_service_managed))
    && (if is_some v.schedule
        then is_some v.scheduled_instance_count
        else not (is_some v.scheduled_instance_count) && not (is_some v.is_scheduling_managed))

pub Consistent : Option Setup → Type 0
Consistent none = Unit
Consistent (some v) = is_consistent v ≡ true

-- The tests of with_schedule, on a schedule and on `is_scheduling_managed`.
with_schedule-cases :
    (s : Option ℕ) (refused : Bool) (v w : Setup)
    → (is_some s ≡ true → is_consistent v ≡ true)
    → is_consistent w ≡ true
    → Consistent (if is_some s then some v else if refused then none else some w)
unfolding Consistent
with_schedule-cases none true v w f g = tt
with_schedule-cases none false v w f g = g
with_schedule-cases (some x) refused v w f g = f refl

scheduled_only : (s : Option ℕ) → is_some s ≡ true → (if is_some s then true else false) ≡ true
scheduled_only none h = h
scheduled_only (some x) h = refl

with_schedule-other :
    (b : Body) (o : Option Setup) (m : Merged) → Consistent (with_schedule b o m none none none)
with_schedule-other b o m =
    with_schedule-cases m.schedule (truthy m.is_scheduling_managed) _ _ (scheduled_only m.schedule)
      refl

none_only : (s : Option ℕ) → is_some s ≡ false → (x : Bool) → is_some s ≡ true → x ≡ true
none_only s h x t = ground arith

with_schedule-service :
    (b : Body) (o : Option Setup) (m : Merged) (count least : ℕ) (managed : Option Bool)
    → is_some m.schedule ≡ false
    → leb least count ≡ true
    → Consistent (with_schedule b o m (some count) (some least) managed)
with_schedule-service b o m count least managed h l =
    with_schedule-cases m.schedule (truthy m.is_scheduling_managed) _ _ (none_only m.schedule h _)
      (rw l refl)

leb_of_ltb : (m n : ℕ) → ltb n m ≡ false → leb m n ≡ true
leb_of_ltb m n h = ground arith

check_merged-cases :
    (service scheduled few refused : Bool) (x y : Option Setup)
    → (scheduled ≡ false → few ≡ false → Consistent x)
    → Consistent y
    → Consistent (
        if service
        then (if scheduled then none else if few then none else x)
        else if refused
        then none
        else y)
unfolding Consistent
check_merged-cases true true few refused x y f g = tt
check_merged-cases true false true refused x y f g = tt
check_merged-cases true false false refused x y f g = f refl refl
check_merged-cases false scheduled few true x y f g = tt
check_merged-cases false scheduled few false x y f g = g

check_merged-IsConsistent :
    (b : Body) (o : Option Setup) (m : Merged) → Consistent (check_merged b o m)
check_merged-IsConsistent b o m =
    check_merged-cases m.is_service (is_some m.schedule)
      (ltb (service_count b o) (min_service_count b o)) (truthy m.is_service_managed) _ _
      (λ h l.
        with_schedule-service b o m (service_count b o) (min_service_count b o) m.is_service_managed
          h (leb_of_ltb (min_service_count b o) (service_count b o) l))
      (with_schedule-other b o m)

validate_service-IsConsistent :
    (b : Body) (o : Option Setup) (x : Option (Option Bool)) → Consistent (validate_service b o x)
unfolding Consistent
validate_service-IsConsistent b o none = tt
validate_service-IsConsistent b o (some is_service) =
    check_merged-IsConsistent b o (merge_task b o is_service)

-- Whatever a request's body says and whichever Task exists, a body that is accepted gives a
-- consistent Task.
pub validate-IsConsistent : (b : Body) (o : Option Setup) → Consistent (validate b o)
unfolding validate
validate-IsConsistent b o = validate_service-IsConsistent b o (service_of_body b)

-- A body that says nothing of the service and the schedule.
abbrev pub nothing_given : Body
nothing_given = record {
  is_service = none;
  service_instance_count = none;
  min_service_instance_count = none;
  is_service_managed = none;
  schedule = none;
  scheduled_instance_count = none;
  is_scheduling_managed = none;
}

abbrev pub at_least_one : Option ℕ → Bool
at_least_one none = true
at_least_one (some n) = ltb 0 n

-- A body that says nothing of the service and the schedule keeps both as they are, where the Task
-- is consistent and the numbers of instances that it has for them are not 0.
pub validate-keeps :
    (t : Setup)
    → is_consistent t ≡ true
    → at_least_one t.service_instance_count ≡ true
    → at_least_one t.scheduled_instance_count ≡ true
    → validate nothing_given (some t) ≡ some t
unfolding validate service_of_body
validate-keeps t h c d = ground arith

-- For a consistent Task with 0 instances of a service, a body that says nothing of the service and
-- the schedule sets the number of instances to 1.
pub validate-restarts :
    (t : Setup)
    → is_consistent t ≡ true
    → t.service_instance_count ≡ some 0
    → Option.map (λ (v : Setup). v.service_instance_count) (validate nothing_given (some t))
      ≡ some (some 1)
unfolding validate service_of_body
validate-restarts t h c = ground arith

-- A body that gives only a number of instances of a scheduled Task, which is not 0, removes the
-- Task's schedule.
pub validate-unschedules :
    (t : Setup) (n : ℕ)
    → 0 < n
    → Option.map
        (λ (v : Setup). v.schedule)
        (validate (record nothing_given { scheduled_instance_count = some n }) (some t))
      ≡ some none
unfolding validate service_of_body
validate-unschedules t n h = ground arith

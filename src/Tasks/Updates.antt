-- ===== src/Tasks/Updates.antt =====
-- An update of a Task by a request, validated by the serializer and then synchronized.
use task_manager.Prelude.{
  ℕ, ◌≡◌, ◌∙◌, sym, Bool, true, false, Option, none, some, is_some, ltb, or_else, arith, first_some,
  if◌then◌else◌,
}
use task_manager.Tasks.{
  Task, ExecutionMethod, has_active_managed_scheduled_execution, synchronize_scheduled,
}
use task_manager.Tasks.Agreement.{Agrees}
use task_manager.Tasks.Scheduling.{UpdatesChanges, synchronize_scheduled-Agrees}
use task_manager.Tasks.Validation.{
  Body, Setup, Merged, service_of_body, merged, merge_existing, truthy, with_schedule,
  service_count, min_service_count, merge_task, check_merged, validate_service, validate,
}

-- The fields of the existing Task that the validation reads are those of the old Task.
abbrev pub IsSetupOf : Setup → Task → Type 0
IsSetupOf v t = (v.schedule ≡ t.schedule) × (v.is_scheduling_managed ≡ t.is_scheduling_managed)

-- A validated Task with a schedule does not say whether it is managed only if the existing Task
-- does not either.
Keeps : Setup → Option Setup → Type 0
Keeps t none = Unit
Keeps t (some v) =
    is_some v.schedule ≡ true → v.is_scheduling_managed ≡ none → t.is_scheduling_managed ≡ none

KeepsMerged : Setup → Merged → Type 0
KeepsMerged t m =
    is_some m.schedule ≡ true → m.is_scheduling_managed ≡ none → t.is_scheduling_managed ≡ none

merged-keeps :
    (b : Body) (t : Setup) (is_service : Bool) (schedule : Option ℕ)
    → KeepsMerged t (merged b t is_service schedule)
unfolding KeepsMerged
merged-keeps b t is_service none h e = ground arith
merged-keeps b t is_service (some s) h e =
    second_none b.is_scheduling_managed t.is_scheduling_managed e
  where
    second_none : (x y : Option Bool) → first_some x y ≡ none → y ≡ none
    second_none none y e = e
    second_none (some x) y e = ground arith

one_of :
    (a b c : Bool) (P : Merged → Type 0) (w x y z : Merged)
    → P w
    → P x
    → P y
    → P z
    → P (if a then w else if b then x else if c then y else z)
one_of true b c P w x y z pw px py pz = pw
one_of false true c P w x y z pw px py pz = px
one_of false false true P w x y z pw px py pz = py
one_of false false false P w x y z pw px py pz = pz

merge_existing-keeps :
    (b : Body) (t : Setup) (is_service : Option Bool)
    → KeepsMerged t (merge_existing b t is_service)
merge_existing-keeps b t is_service =
    one_of (is_some is_service) (is_some b.schedule) (is_some t.service_instance_count)
      (KeepsMerged t) _ _ _ _ (merged-keeps b t (truthy is_service) (or_else b.schedule none))
      (merged-keeps b t false (or_else b.schedule none)) (merged-keeps b t true none)
      (merged-keeps b t false t.schedule)

with_schedule-Keeps :
    (b : Body) (t : Setup) (o : Option Setup) (m : Merged) (count least : Option ℕ)
    (managed : Option Bool)
    → KeepsMerged t m
    → Keeps t (with_schedule b o m count least managed)
unfolding Keeps KeepsMerged
with_schedule-Keeps b t o m count least managed k =
    go (is_some m.schedule) (truthy m.is_scheduling_managed) _ _ k (λ h. ground arith)
  where
    go :
        (a c : Bool) (v w : Setup)
        → (is_some v.schedule ≡ true
            → v.is_scheduling_managed ≡ none
            → t.is_scheduling_managed ≡ none)
        → (is_some w.schedule ≡ true
            → w.is_scheduling_managed ≡ none
            → t.is_scheduling_managed ≡ none)
        → Keeps t (if a then some v else if c then none else some w)
    go true c v w f g = f
    go false true v w f g = tt
    go false false v w f g = g

check_merged-Keeps :
    (b : Body) (t : Setup) (o : Option Setup) (m : Merged)
    → KeepsMerged t m
    → Keeps t (check_merged b o m)
unfolding Keeps
check_merged-Keeps b t o m k =
    go m.is_service (is_some m.schedule) (ltb (service_count b o) (min_service_count b o))
      (truthy m.is_service_managed) _ _
      (with_schedule-Keeps b t o m (some (service_count b o)) (some (min_service_count b o))
        m.is_service_managed k)
      (with_schedule-Keeps b t o m none none none k)
  where
    go :
        (a c d e : Bool) (x y : Option Setup)
        → Keeps t x
        → Keeps t y
        → Keeps t (if a then (if c then none else if d then none else x) else if e then none else y)
    go true true d e x y f g = tt
    go true false true e x y f g = tt
    go true false false e x y f g = f
    go false c d true x y f g = tt
    go false c d false x y f g = g

validate-Keeps : (b : Body) (t : Setup) → Keeps t (validate b (some t))
unfolding validate Keeps
validate-Keeps b t = go (service_of_body b)
  where
    go : (x : Option (Option Bool)) → Keeps t (validate_service b (some t) x)
    go none = tt
    go (some is_service) =
        check_merged-Keeps b t (some t) (merge_task b (some t) is_service)
          (merge_existing-keeps b t is_service)

validated-managed :
    (b : Body) (t v : Setup) (o : Option Setup)
    → Keeps t o
    → o ≡ some v
    → is_some v.schedule ≡ true
    → v.is_scheduling_managed ≡ none
    → t.is_scheduling_managed ≡ none
unfolding Keeps
validated-managed b t v o k e = rw e at k

unsaid_inactive :
    (t : Task)
    → t.is_scheduling_managed ≡ none
    → has_active_managed_scheduled_execution true t ≡ false
unfolding has_active_managed_scheduled_execution
unsaid_inactive t h = rw h (ground arith)

-- If the serializer accepts a request's body for a Task, the Task that is then saved has the
-- schedule that it computes and what it says on whether the schedule is managed, and before that,
-- the row and the run environment agreed on whether there is an active managed schedule, then they
-- still do after the part of the synchronization for the schedule. The execution method updates the
-- schedule where it is to be active and was not, or the other way round.
pub validate-Agrees :
    (method : Task → ExecutionMethod) (body : Body) (existing v : Setup) (old self : Task)
    (b : Bool)
    → UpdatesChanges (method self)
    → IsSetupOf existing old
    → validate body (some existing) ≡ some v
    → IsSetupOf v self
    → has_active_managed_scheduled_execution true old ≡ b
    → Agrees b (synchronize_scheduled method (some old) (some old) self)
validate-Agrees method body existing v old self b u e h s a =
    synchronize_scheduled-Agrees method (some old) self b u
      (λ is n. unsaid_inactive old (
        sym e.1
        ∙ validated-managed body existing v (validate body (some existing))
            (validate-Keeps body existing) h (rw s.0 is) (s.1 ∙ n)))
      a

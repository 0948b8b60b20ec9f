-- ===== src/Tasks/Scheduling.antt =====
-- The schedule that a Task's row promises, and the one that exists in the run environment.

use task_manager.Prelude.{
  ◌≡◌, ◌≢◌, refl, ◌∙◌, sym, Bool, true, false, not, ◌&&◌, Option, none, some, [], if◌then◌else◌,
  is_some, arith,
}
use task_manager.Tasks.{
  Task, managed_or, has_active_managed_scheduled_execution, ExecutionMethod, step, was_active,
  replace_scheduled, synchronize_scheduled,
}
use task_manager.Tasks.Agreement.{exists_after, Agrees, replace-new, replace-old}

-- The method updates the schedule where it is to be active and was not, or the other way round.
unfoldable pub UpdatesChanges : ExecutionMethod → Type 0
UpdatesChanges m =
    (self : Task) (old : Option Task)
    → has_active_managed_scheduled_execution false self
      ≢ was_active (has_active_managed_scheduled_execution true) old
    → (m.should_update_or_force_recreate_scheduled_execution self old).0 ≡ true

replace-agrees :
    (method : Task → ExecutionMethod) (old : Option Task) (self : Task) (will force b : Bool)
    → has_active_managed_scheduled_execution false self ≡ will
    → was_active (has_active_managed_scheduled_execution true) old ≡ b
    → Agrees b (replace_scheduled method old old will force self)
replace-agrees method none self will force true h e = ground arith
replace-agrees method none self will force false h e = replace-new method self will force h
replace-agrees method (some o) self will force b h e = replace-old method o self will force b h e

pub absurd : {A : Type 0} → false ≡ true → A
absurd h = ground arith

same_of_not_updated : (x y : Bool) (u : Bool) → (x ≢ y → u ≡ true) → u ≡ false → x ≡ y
same_of_not_updated true true u f h = refl
same_of_not_updated false false u f h = refl
same_of_not_updated true false u f h = absurd (sym h ∙ f (λ e. ground arith))
same_of_not_updated false true u f h = absurd (sym h ∙ f (λ e. ground arith))

kept :
    (old : Option Task) (self : Task)
    → (is_some self.schedule ≡ true
        → self.is_scheduling_managed ≡ none
        → was_active (has_active_managed_scheduled_execution true) old ≡ false)
    → has_active_managed_scheduled_execution false self
      ≡ was_active (has_active_managed_scheduled_execution true) old
    → has_active_managed_scheduled_execution true self
      ≡ was_active (has_active_managed_scheduled_execution true) old
unfolding has_active_managed_scheduled_execution
kept old self f h =
    go self.enabled self.passive (is_some self.schedule) self.is_scheduling_managed
      (was_active (has_active_managed_scheduled_execution true) old) f h
  where
    go :
        (a b c : Bool) (d : Option Bool) (w : Bool)
        → (c ≡ true → d ≡ none → w ≡ false)
        → (a && (not b && (c && managed_or d true))) ≡ w
        → (a && (not b && (c && managed_or d false))) ≡ w
    go a b true none w f h = rw (f refl refl) (ground arith)
    go a b false none w f h = h
    go a b c (some d) w f h = h

-- Where the row and the run environment agree on whether there is an active managed schedule, they
-- still do after the part of the synchronization for the schedule, with the Task that is then
-- saved; and with the row as it is then, if an exception keeps the Task from being saved. The
-- execution method updates the schedule where it is to be active and was not, or the other way
-- round; and if the Task has a schedule and does not say whether it is managed, the old one was not
-- active.
pub synchronize_scheduled-Agrees :
    (method : Task → ExecutionMethod) (old : Option Task) (self : Task) (b : Bool)
    → UpdatesChanges (method self)
    → (is_some self.schedule ≡ true
        → self.is_scheduling_managed ≡ none
        → was_active (has_active_managed_scheduled_execution true) old ≡ false)
    → was_active (has_active_managed_scheduled_execution true) old ≡ b
    → Agrees b (synchronize_scheduled method old old self)
unfolding synchronize_scheduled Agrees exists_after UpdatesChanges
synchronize_scheduled-Agrees method old self b u m h =
    go ((method self).should_update_or_force_recreate_scheduled_execution self old).0
      (has_active_managed_scheduled_execution false self && not (method self).supports_scheduling)
      ((method self).should_update_or_force_recreate_scheduled_execution self old).1 (u self old)
  where
    go :
        (update unsupported force : Bool)
        → (has_active_managed_scheduled_execution false self
              ≢ was_active (has_active_managed_scheduled_execution true) old
            → update ≡ true)
        → Agrees b (
            if not update
            then step [] old (some self)
            else if unsupported
            then step [] old none
            else replace_scheduled method old old
                (has_active_managed_scheduled_execution false self)
                force
                self)
    go false unsupported force c = kept old self m (same_of_not_updated _ _ false c refl) ∙ h
    go true true force c = h
    go true false force c =
        replace-agrees method old self (has_active_managed_scheduled_execution false self) force b
          refl h

-- ===== src/Checker/Transitions.antt =====
-- How a check moves the status of a task execution, and when it leaves the execution alone.
use task_manager.Prelude.{
  ◌≡◌, refl, ap, ◌∙◌, ◌-◌, ◌⊎◌, inl, inr, not, if◌then◌else◌, Bool, true, false, Option, none, List,
  [], ◌∷◌, ◌++◌, arith, Time, is_some,
}
use task_manager.Status.{
  Status, running, stopping, abandoned, manually_started, same_status, status_in,
  awaiting_update_statuses,
}
use task_manager.Checker.{
  TaskSettings, Execution, Outcome, HeartbeatEvent, Effect, save, save_delayed_start_event,
  notify_delayed_start, save_heartbeat_event, notify_heartbeat, exceeds, check_started_on_time,
  check_timeout, check_missing_heartbeat, check_task_execution,
}

-- The rows of the execution that the effects save, in order.
pub saved : List Effect → List Execution
saved [] = []
saved (save te ∷ es) = te ∷ saved es
saved (save_delayed_start_event ∷ es) = saved es
saved (notify_delayed_start ∷ es) = saved es
saved (save_heartbeat_event e ∷ es) = saved es
saved (notify_heartbeat e ∷ es) = saved es

-- The status before and after a step that writes the row.
abbrev pub Moves : Status → Status → Type 0
Moves s t =
    ((s ≡ manually_started) × (t ≡ abandoned))
    ⊎ ((s ≡ stopping) × (t ≡ abandoned))
    ⊎ ((s ≡ running) × (t ≡ abandoned))
    ⊎ ((same_status s stopping ≡ false) × (t ≡ stopping))

-- An execution is left alone and not saved, or it is moved and marked done, and the row that is
-- saved is this one, once.
abbrev pub Checked : Execution → Execution → List Effect → Type 0
Checked te te' effects =
    ((te' ≡ te) × (saved effects ≡ []))
    ⊎ (Moves te.status te'.status
        × (saved effects ≡ te' ∷ [])
        × (is_some te'.marked_done_at ≡ true))

saved-append : (xs ys : List Effect) → saved (xs ++ ys) ≡ saved xs ++ saved ys
unfolding saved
saved-append [] ys = refl
saved-append (save te ∷ xs) ys = ap (λ r. te ∷ r) (saved-append xs ys)
saved-append (save_delayed_start_event ∷ xs) ys = saved-append xs ys
saved-append (notify_delayed_start ∷ xs) ys = saved-append xs ys
saved-append (save_heartbeat_event e ∷ xs) ys = saved-append xs ys
saved-append (notify_heartbeat e ∷ xs) ys = saved-append xs ys

module _ (task : TaskSettings) where
  started-Checked :
      (existing : Bool) (now : Time) (te : Execution)
      → let o = check_started_on_time task existing now te in Checked te o.execution o.effects
  unfolding check_started_on_time saved
  started-Checked existing now te = ground arith

  timeout-Checked :
      (now : Time) (te : Execution)
      → let o = check_timeout task now te in Checked te o.execution o.effects
  unfolding check_timeout saved
  timeout-Checked now te = ground arith

  heartbeat-Checked :
      (last_event : Option HeartbeatEvent) (now : Time) (te : Execution)
      → let o = check_missing_heartbeat task last_event now te in Checked te o.execution o.effects
  unfolding check_missing_heartbeat saved
  heartbeat-Checked last_event now te = ground arith

  started_result :
      (existing : Bool) (now : Time) (te : Execution)
      → let o = check_started_on_time task existing now te in
        o.result ≡ true → (o.execution ≡ te) × (saved o.effects ≡ [])
  unfolding check_started_on_time saved
  started_result existing now te h = ground arith

  timeout_result :
      (now : Time) (te : Execution)
      → let o = check_timeout task now te in
        o.result ≡ false → (o.execution ≡ te) × (saved o.effects ≡ [])
  unfolding check_timeout saved
  timeout_result now te h = ground arith

unsaved : saved [] ≡ []
unfolding saved
unsaved = refl

abbrev OutcomeChecked : Execution → Outcome → Type 0
OutcomeChecked te o = Checked te o.execution o.effects

when :
    (P : Outcome → Type 0) (b : Bool) (x y : Outcome)
    → (b ≡ true → P x)
    → (b ≡ false → P y)
    → P (if b then x else y)
when P true x y f g = f refl
when P false x y f g = g refl

-- A check after effects that save no row.
Checked-after :
    (te before after : Execution) (xs ys : List Effect)
    → before ≡ te
    → saved xs ≡ []
    → Checked before after ys
    → Checked te after (xs ++ ys)
Checked-after te before after xs ys e h c =
    let skip = saved-append xs ys ∙ ap (λ r. r ++ saved ys) h in
    elim c [ inl q ↦ inl (q.0 ∙ e, skip ∙ q.1) | inr m ↦ inr (rw e at m.0, skip ∙ m.1, m.2) ]

-- A check of a task execution either leaves it as it is and does not save it, or the row that it
-- saves, exactly once, is the resulting one, marked done, with a new status: ABANDONED from
-- MANUALLY_STARTED, STOPPING or RUNNING, or STOPPING from another status.
pub check_task_execution-Checked :
    (task : TaskSettings) (existing : Bool) (last_event : Option HeartbeatEvent)
    (at_start at_timeout at_heartbeat : Time) (te : Execution)
    → let o =
        check_task_execution task existing last_event (at_start, at_timeout, at_heartbeat) te in
      Checked te o.execution o.effects
unfolding check_task_execution
check_task_execution-Checked task existing last_event at_start at_timeout at_heartbeat te =
    let started = check_started_on_time task existing at_start te in
    let timed = check_timeout task at_timeout started.execution in
    let beat = check_missing_heartbeat task last_event at_heartbeat timed.execution in
    when (OutcomeChecked te) (not task.enabled) _ _ (λ h. inl (refl, unsaved))
      (λ h.
        when (OutcomeChecked te) (is_some te.finished_at) _ _ (λ k. inl (refl, unsaved))
          (λ k.
            when (OutcomeChecked te) (not started.result) _ _
              (λ r. started-Checked task existing at_start te)
              (λ r.
                let q = started_result task existing at_start te (ground (arith, r)) in
                when (OutcomeChecked te) timed.result _ _
                  (λ t.
                    Checked-after te started.execution timed.execution started.effects timed.effects
                      q.0 q.1 (timeout-Checked task at_timeout started.execution))
                  (λ t.
                    let p = timeout_result task at_timeout started.execution t in
                    Checked-after te timed.execution beat.execution
                      (started.effects ++ timed.effects) beat.effects (p.0 ∙ q.0)
                      (saved-append started.effects timed.effects
                        ∙ ap (λ r. r ++ saved timed.effects) q.1
                        ∙ p.1)
                      (heartbeat-Checked task last_event at_heartbeat timed.execution)))))

-- An execution whose status awaits no update, with no time of finishing, an enabled task and a
-- longer run than the task's maximum age, is set to STOPPING by a check.
pub check_task_execution-overwrites :
    (task : TaskSettings) (existing : Bool) (last_event : Option HeartbeatEvent)
    (at_start at_timeout at_heartbeat : Time) (te : Execution)
    → task.enabled ≡ true
    → te.finished_at ≡ none
    → status_in te.status awaiting_update_statuses ≡ false
    → exceeds task.max_age_seconds (at_timeout - te.started_at) ≡ true
    → let o =
        check_task_execution task existing last_event (at_start, at_timeout, at_heartbeat) te in
      o.execution.status ≡ stopping
unfolding check_task_execution check_started_on_time check_timeout
check_task_execution-overwrites task existing last_event at_start at_timeout at_heartbeat te he hf
      hs hx =
    ground arith

-- ===== src/Checker/Heartbeats.antt =====
-- When a running task execution is reported or given up for its heartbeats.
use task_manager.Prelude.{
  ℕ, suc, ◌≡◌, ◌⊎◌, ◌+◌, ◌-◌, ◌≤◌, Bool, false, Option, none, some, List, [], ◌∷◌, arith, Time,
  seconds,
}
use task_manager.Status.{running}
use task_manager.Checker.{
  TaskSettings, Execution, HeartbeatEvent, Effect, save_heartbeat_event, check_missing_heartbeat,
  exceeds, check_started_on_time, check_timeout, check_task_execution,
}

-- The number of heartbeat events that effects save, and the last of them, or else the one before.
abbrev pub count_reports : List Effect → ℕ
count_reports [] = 0
count_reports (save_heartbeat_event e ∷ es) = suc (count_reports es)
count_reports (_ ∷ es) = count_reports es

abbrev pub last_reported : List Effect → Option HeartbeatEvent → Option HeartbeatEvent
last_reported [] last = last
last_reported (save_heartbeat_event e ∷ es) last = last_reported es (some e)
last_reported (_ ∷ es) last = last_reported es last

-- The number of events that checks of one execution save, where each check finds its row as given
-- and the event that was saved last.
unfoldable pub reports_of : TaskSettings → Option HeartbeatEvent → List (Time × Execution) → ℕ
reports_of task last [] = 0
reports_of task last ((now, te) ∷ checks) =
    let effects = (check_missing_heartbeat task last now te).effects in
    count_reports effects + reports_of task (last_reported effects last) checks

-- Each check is not before the one that precedes it.
unfoldable pub Ascending : Time → List (Time × Execution) → Type 0
Ascending t [] = Unit
Ascending t ((now, te) ∷ checks) = (t ≤ now) × Ascending now checks

-- The event is not resolved and was detected at the instant.
abbrev DetectedAt : Time → HeartbeatEvent → Type 0
DetectedAt t e = (e.resolved_at ≡ none) × (e.detected_at ≡ some t)

abbrev Reported : Time → Option HeartbeatEvent → List Effect → Type 0
Reported now last effects =
    ((count_reports effects ≡ 0) × (last_reported effects last ≡ last))
    ⊎ ((count_reports effects ≡ 1)
        × (e : HeartbeatEvent) × (last_reported effects last ≡ some e)
        × DetectedAt now e)

-- A RUNNING, unfinished execution within the task's maximum age whose last heartbeat is not later
-- than its interval is left alone by a check, with no effect.
pub check_task_execution-quiet :
    (task : TaskSettings) (existing : Bool) (last_event : Option HeartbeatEvent)
    (at_start at_timeout now : Time) (interval last : ℕ) (te : Execution)
    → te.status ≡ running
    → te.heartbeat_interval_seconds ≡ some interval
    → te.last_heartbeat_at ≡ some last
    → now ≤ last + seconds interval
    → exceeds task.max_age_seconds (at_timeout - te.started_at) ≡ false
    → let o = check_task_execution task existing last_event (at_start, at_timeout, now) te in
      (o.execution ≡ te) × (o.effects ≡ [])
unfolding check_task_execution check_started_on_time check_timeout check_missing_heartbeat
check_task_execution-quiet task existing last_event at_start at_timeout now interval last te hs hi
      hl h hx =
    ground arith

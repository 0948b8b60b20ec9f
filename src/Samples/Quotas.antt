-- ===== src/Samples/Quotas.antt =====
-- The theorems on saved executions, on the purge of history and on API credits at sample rows.
use task_manager.Prelude.{
  ◌+◌, ◌-◌, ◌≤◌, ◌≡◌, refl, min, Bool, true, false, none, some, List, [], ◌∷◌, arith, length,
}
use task_manager.Status.{Status, running, succeeded}
use task_manager.Purge.{purge_history}
use task_manager.Purge as Purge
use task_manager.Purge.Counts.{purge_history-room}
use task_manager.Hooks.{Row, Heartbeats, Effect, save_workflow, resolve_missing}
use task_manager.Hooks.Sequences.{creations, save_all, save_all-creations}
use task_manager.Throttle.{Moment, GroupInfo}
use task_manager.Throttle.Credits.{credited, requests, requests-allowed}

abbrev run_of : Status → Purge.Execution
run_of s = record { status = s; started_at = some 5; finished_at = none; deletes = true }

abbrev history : List Purge.Execution
history = run_of running ∷ run_of succeeded ∷ run_of succeeded ∷ []

purge_history-room_example : length (purge_history (some 2) 1 0 history).1 + 1 ≤ 2
purge_history-room_example = purge_history-room 2 1 history (omega arith) (refl, (refl, (refl, tt)))

abbrev december : Moment
december = record { year = 2025; month = 12 }

abbrev spent : GroupInfo
spent = record { used_current_month = 7; used_previous_month = 4; last_used_at = some december }

abbrev january : Moment
january = record { year = 2026; month = 1 }

requests-allowed_example :
    let r = requests 12 (some 10) january spent in
    (r.0 ≡ min 12 (10 - credited january spent))
    × (credited january r.1 ≡ credited january spent + r.0)
requests-allowed_example = requests-allowed 12 10 january spent

abbrev saved_row : Status → Row
saved_row s = record {
  status = s;
  started_at = some 5;
  last_heartbeat_at = some 6;
  stop_reason = none;
  killed_by = none;
  kill_started_at = none;
  kill_finished_at = none;
}

abbrev beats : Heartbeats
beats = record {
  heartbeat_interval_seconds = some 60;
  max_heartbeat_lateness_before_alert_seconds = some 30;
}

-- The save of the workflow execution raises an exception.
abbrev raises_late : Effect → Bool
raises_late (save_workflow t) = true
raises_late _ = false

save_all-creations_example :
    creations (
      save_all beats none none (
        (raises_late, false, 7, saved_row running)
        ∷ (raises_late, true, 8, saved_row succeeded)
        ∷ (raises_late, false, 9, saved_row succeeded)
        ∷ []))
    ≡ 1
save_all-creations_example =
    save_all-creations beats none none ((raises_late, false, 7, saved_row running) ∷ [])
      (raises_late, true, 8, saved_row succeeded)
      ((raises_late, false, 9, saved_row succeeded) ∷ []) refl refl (refl, tt) refl (refl, refl)
      (refl, tt)

-- The events for missing executions cannot be saved.
abbrev raises_early : Effect → Bool
raises_early resolve_missing = true
raises_early _ = false

-- ===== src/Samples/Postponements.antt =====
-- The theorems on the check of postponed events at two sample events.
use task_manager.Prelude.{ℕ, ◌≡◌, true, false, none, some, [], ◌∷◌}
use task_manager.PostponedChecker.{PostponedEvent, execution, check_all}
use task_manager.PostponedChecker.Runs.{check_all-quiet}

abbrev postponed : ℕ → PostponedEvent
postponed i = record {
  ident = i;
  postponed_until = some 5000000;
  triggered_at = none;
  resolved_at = none;
  resolves = none;
  executable_enabled = some true;
  recipient = execution;
  sends = false;
}

check_all-quiet_example :
    let first = check_all 6000000 (postponed 1 ∷ postponed 2 ∷ []) in
    let second = check_all 6000000 first.events in
    (second.triggered_count ≡ 0) × (second.notified ≡ []) × (second.events ≡ first.events)
check_all-quiet_example = check_all-quiet 6000000 (postponed 1 ∷ postponed 2 ∷ [])

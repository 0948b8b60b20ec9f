-- ===== src/Checker.antt =====
-- server/processes/services/task_execution_checker.py: the periodic check of task executions that
-- have not finished. `started_at` and `created_at` are columns that are never null. An instant is
-- taken once for each of the three checks.
pub mod Transitions
pub mod Heartbeats
use task_manager.Prelude.{
  ℕ, ◌+◌, ◌-◌, ◌%◌, Bool, true, false, not, ◌&&◌, ◌||◌, Option, none, some, List, [], ◌∷◌, ◌++◌,
  ltb, leb, if◌then◌else◌, is_some, or_else, is_truthy, Time, seconds,
}
use task_manager.Status.{
  Status, running, stopping, abandoned, manually_started, same_status, status_in,
  awaiting_update_statuses, StopReason, max_execution_time_exceeded, missing_heartbeat,
  failed_to_start,
}

-- The settings of a Task that the checker reads.
pub record TaskSettings : Type 0 where
  pub enabled : Bool
  pub max_age_seconds : Option ℕ
  pub max_manual_start_delay_before_alert_seconds : Option ℕ
  pub max_manual_start_delay_before_abandonment_seconds : Option ℕ
  pub max_heartbeat_lateness_before_alert_seconds : Option ℕ
  pub max_heartbeat_lateness_before_abandonment_seconds : Option ℕ
  pub severity_on_missing_heartbeat : Option ℕ
  pub aws_ecs_service_updated_at : Option Time

-- The fields of a TaskExecution that the checker reads or writes.
pub record Execution : Type 0 where
  pub status : Status
  pub created_at : Time
  pub started_at : Time
  pub finished_at : Option Time
  pub marked_done_at : Option Time
  pub last_heartbeat_at : Option Time
  pub heartbeat_interval_seconds : Option ℕ
  pub stop_reason : Option StopReason
  pub skip_event_generation : Bool

-- MissingHeartbeatDetectionEvent
pub record HeartbeatEvent : Type 0 where
  pub severity : ℕ
  pub detected_at : Option Time
  pub resolved_at : Option Time
  pub last_heartbeat_at : Time
  pub expected_heartbeat_at : Time
  pub heartbeat_interval_seconds : ℕ

-- What the checker does to the database and to those who are notified, in order.
pub data Effect : Type 0 where
  save : Execution → Effect
  save_delayed_start_event notify_delayed_start : Effect
  save_heartbeat_event notify_heartbeat : HeartbeatEvent → Effect

-- The execution after a check, the check's result, and its effects.
pub record Outcome : Type 0 where
  pub execution : Execution
  pub result : Bool
  pub effects : List Effect

abbrev pub outcome : Execution → Bool → List Effect → Outcome
outcome te result effects = record { execution = te; result = result; effects = effects }

abbrev pub heartbeat_detection_interval_seconds : ℕ
heartbeat_detection_interval_seconds = 3600

abbrev pub max_stopping_duration_seconds : ℕ
max_stopping_duration_seconds = 600

abbrev pub max_delayed_start_detection_task_age_seconds : ℕ
max_delayed_start_detection_task_age_seconds = 2592000

-- `(limit is not None) and (duration > limit)`
abbrev pub exceeds : Option ℕ → Time → Bool
exceeds none duration = false
exceeds (some limit) duration = ltb (seconds limit) duration

abbrev pub add_effects : List Effect → Outcome → Outcome
add_effects effects o = record o { effects = effects ++ o.effects }

module _ (task : TaskSettings) where
  -- The alert of check_started_on_time, where a DelayedTaskExecutionStartEvent may exist already.
  abbrev pub delayed_start_effects : Bool → Time → Execution → List Effect
  delayed_start_effects existing now te =
      if ltb te.created_at (now - seconds max_delayed_start_detection_task_age_seconds)
      then []
      else if existing
      then []
      else save_delayed_start_event ∷ notify_delayed_start ∷ []

  -- check_started_on_time
  unfoldable pub check_started_on_time : Bool → Time → Execution → Outcome
  check_started_on_time existing now te =
      let duration = now - te.started_at in
      let alerted = exceeds task.max_manual_start_delay_before_alert_seconds duration in
      let effects = if alerted then delayed_start_effects existing now te else [] in
      let given_up = record te {
        status = abandoned;
        stop_reason = some failed_to_start;
        marked_done_at = some now;
      } in
      if not (same_status te.status manually_started)
      then outcome te true []
      else if exceeds task.max_manual_start_delay_before_abandonment_seconds duration
      then outcome given_up false (effects ++ save given_up ∷ [])
      else outcome te (not alerted) effects

  -- check_timeout
  unfoldable pub check_timeout : Time → Execution → Outcome
  check_timeout now te =
      let duration = now - te.started_at in
      let given_up = record te {
        status = abandoned;
        marked_done_at = some (or_else te.marked_done_at now);
        finished_at = some now;
      } in
      let stopped = record te {
        status = stopping;
        marked_done_at = some now;
        stop_reason = some max_execution_time_exceeded;
      } in
      if same_status te.status stopping
      then if leb (seconds max_stopping_duration_seconds) duration
        then outcome given_up true (save given_up ∷ [])
        else outcome te false []
      else if exceeds task.max_age_seconds duration
      then outcome stopped true (save stopped ∷ [])
      else outcome te false []

  abbrev pub service_updated_after : Time → Option Time → Bool
  service_updated_after t none = false
  service_updated_after t (some updated) = ltb t updated

  abbrev pub started_after_update : Time → Option Time → Bool
  started_after_update t none = true
  started_after_update t (some updated) = ltb updated t

  -- `expected_heartbeat_at`
  abbrev pub expected_heartbeat : Time → ℕ → Time
  expected_heartbeat last interval =
      (if service_updated_after last task.aws_ecs_service_updated_at
        then or_else task.aws_ecs_service_updated_at last
        else last)
      + seconds interval

  -- The lateness limit is set, and passed both since the last heartbeat and since the expected one.
  abbrev pub too_late : Option ℕ → Time → ℕ → Time → Bool
  too_late none last interval now = false
  too_late (some lateness) last interval now =
      ltb (seconds (interval + lateness)) (now - last)
      && ltb (expected_heartbeat last interval + seconds lateness) now

  -- Whether a new event is to be saved, given the last one that is not a resolution.
  abbrev pub detected_long_after : Option Time → Time → Bool
  detected_long_after none now = false
  detected_long_after (some detected) now =
      ltb (seconds heartbeat_detection_interval_seconds) (detected - now)

  abbrev pub should_save_event : Option HeartbeatEvent → Time → Bool
  should_save_event none now = true
  should_save_event (some e) now = is_some e.resolved_at || detected_long_after e.detected_at now

  abbrev pub whole_seconds : Time → Time
  whole_seconds t = t - (t % 1000000)

  abbrev pub new_heartbeat_event : Time → Time → ℕ → HeartbeatEvent
  new_heartbeat_event now last interval = record {
    severity = or_else task.severity_on_missing_heartbeat 0;
    detected_at = some now;
    resolved_at = none;
    last_heartbeat_at = whole_seconds last;
    expected_heartbeat_at = whole_seconds (expected_heartbeat last interval);
    heartbeat_interval_seconds = interval;
  }

  -- The part of check_missing_heartbeat where an interval is set.
  unfoldable pub check_heartbeat : Option HeartbeatEvent → Time → ℕ → Execution → Outcome
  check_heartbeat last_event now interval te =
      let last = or_else te.last_heartbeat_at te.started_at in
      let eligible = started_after_update te.started_at task.aws_ecs_service_updated_at in
      let given_up = record te {
        status = abandoned;
        stop_reason = some missing_heartbeat;
        marked_done_at = some now;
        finished_at = some now;
        skip_event_generation = not eligible;
      } in
      let event = new_heartbeat_event now last interval in
      if too_late task.max_heartbeat_lateness_before_abandonment_seconds last interval now
      then outcome given_up true (save given_up ∷ [])
      else if too_late task.max_heartbeat_lateness_before_alert_seconds last interval now
          && eligible
      then outcome te true (
          if should_save_event last_event now
          then save_heartbeat_event event ∷ notify_heartbeat event ∷ []
          else [])
      else outcome te false []

  abbrev pub with_interval : Option HeartbeatEvent → Time → Option ℕ → Execution → Outcome
  with_interval last_event now none te = outcome te false []
  with_interval last_event now (some interval) te = check_heartbeat last_event now interval te

  -- check_missing_heartbeat
  unfoldable pub check_missing_heartbeat : Option HeartbeatEvent → Time → Execution → Outcome
  unfolding check_heartbeat
  check_missing_heartbeat last_event now te =
      if not (same_status te.status running)
      then outcome te false []
      else if not (is_truthy task.severity_on_missing_heartbeat)
      then outcome te false []
      else with_interval last_event now te.heartbeat_interval_seconds te

  -- check_task_execution on a row that was just read again; it returns nothing, so the result of
  -- its outcome has no meaning. A status that awaits no update is only logged.
  unfoldable pub check_task_execution :
      Bool → Option HeartbeatEvent → (Time × Time × Time) → Execution → Outcome
  check_task_execution existing last_event (at_start, at_timeout, at_heartbeat) te =
      let started = check_started_on_time existing at_start te in
      let timed = check_timeout at_timeout started.execution in
      if not task.enabled
      then outcome te true []
      else if is_some te.finished_at
      then outcome te true []
      else if not started.result
      then started
      else if timed.result
      then add_effects started.effects timed
      else add_effects (started.effects ++ timed.effects)
          (check_missing_heartbeat last_event at_heartbeat timed.execution)
